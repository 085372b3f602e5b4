-- ===== src/OrderedArray/Insert.antt =====
-- kernel/arch/x86/lib/ordered_array.c: `insert_ordered_array` against insertion into a list.
use mathlib.Core.Path.{ap₂}
use mathlib.Core.List.{append_assoc}
use beryllium.Base.{
  get_or-append_at, set-append_at, length-snoc, ℕ, suc, ◌+◌, ◌-◌, ◌≤◌, ◌<◌, ◌≡◌, refl, sym, ap, ◌∙◌,
  ◌^◌, inl, inr, Bool, false, ◌⊎◌, none, some, List, [], ◌∷◌, ◌++◌, arith, ◌==◌, if◌then◌else◌,
  Bool-cases, length, length-append, get_or, set, set-append_length,
}
use beryllium.OrderedArray.{OrderedArray, position, shift_up, insert}

-- The array that holds `xs`, with `spare` behind it in its storage.
abbrev pub laid : (lt : ℕ → ℕ → Bool) (xs spare : List ℕ) → OrderedArray
laid lt xs spare = record {
  array = xs ++ spare;
  size = length xs;
  max_size = length xs + length spare;
  less_than = some lt;
}

module _ (lt : ℕ → ℕ → Bool) (item : ℕ) where
  -- The item goes in front of the first one that is not below it.
  unfoldable pub inserted : List ℕ → List ℕ
  inserted [] = item ∷ []
  inserted (x ∷ xs) = if lt x item then x ∷ inserted xs else item ∷ x ∷ xs

  -- The items below it that stand in front.
  pub prefix : List ℕ → ℕ
  prefix [] = 0
  prefix (x ∷ xs) = if lt x item then suc (prefix xs) else 0

  prefix-le : (xs : List ℕ) → prefix xs ≤ length xs
  unfolding prefix
  prefix-le [] = omega arith
  prefix-le (x ∷ xs) = ground (arith, prefix-le xs)

  position_lem :
      (pre xs spare : List ℕ) (size i : ℕ)
      → i ≡ length pre
      → size ≡ i + length xs
      → position lt item size (length xs) i (pre ++ (xs ++ spare)) ≡ i + prefix xs
  unfolding position prefix
  position_lem pre [] spare size i e f = omega arith
  position_lem pre (x ∷ xs) spare size i e f =
      let rest : position lt item size (length xs) (i + 1) (pre ++ (x ∷ (xs ++ spare)))
          ≡ i + 1 + prefix xs =
        ap (position lt item size (length xs) (i + 1))
          (sym (append_assoc pre (x ∷ []) (xs ++ spare)))
        ∙ position_lem (pre ++ (x ∷ [])) xs spare size (i + 1) (length-snoc pre x i e)
            (omega arith) in
      ground (arith, get_or-append_at pre (xs ++ spare) x 0 i e, rest)

  shift_up_lem :
      (pre ys spare : List ℕ) (z t i : ℕ)
      → i + 1 ≡ length pre
      → shift_up (suc (length ys)) i t (pre ++ (ys ++ (z ∷ spare))) ≡ pre ++ (t ∷ (ys ++ spare))
  unfolding shift_up
  shift_up_lem pre [] spare z t i e = set-append_at pre spare z t (i + 1) e
  shift_up_lem pre (y ∷ ys) spare z t i e =
      ap₂ (shift_up (suc (length ys)) (i + 1))
        (get_or-append_at pre (ys ++ (z ∷ spare)) y 0 (i + 1) e)
        (set-append_at pre (ys ++ (z ∷ spare)) y t (i + 1) e
          ∙ sym (append_assoc pre (t ∷ []) (ys ++ (z ∷ spare))))
      ∙ shift_up_lem (pre ++ (t ∷ [])) ys spare z y (i + 1) (length-snoc pre t (i + 1) e)
      ∙ append_assoc pre (t ∷ []) (y ∷ (ys ++ spare))

  -- The items from the insertion point on, and those before it.
  split_lem :
      (xs : List ℕ)
      → ((prefix xs ≡ length xs) × (inserted xs ≡ xs ++ (item ∷ [])))
        ⊎ ((pre : List ℕ) × (y : ℕ) × (ys : List ℕ) × (xs ≡ pre ++ (y ∷ ys))
            × (prefix xs ≡ length pre)
            × (inserted xs ≡ pre ++ (item ∷ y ∷ ys)))
  unfolding prefix inserted
  split_lem [] = inl (refl, refl)
  split_lem (x ∷ xs) = elim (Bool-cases (lt x item)) [
    | inl below ↦ elim (split_lem xs) [
      | inl (e, f) ↦ inl (ground arith, ground arith)
      | inr (pre, y, ys, e, f, g) ↦
          inr (x ∷ pre, y, ys, ap (λ zs. x ∷ zs) e, ground arith, ground arith)
    ]
    | inr above ↦ inr ([], x, xs, refl, ground arith, ground arith)
  ]

  length-inserted : (xs : List ℕ) → length (inserted xs) ≡ length xs + 1
  unfolding inserted
  length-inserted [] = omega arith
  length-inserted (x ∷ xs) = ground (arith, length-inserted xs)

  stored_middle :
      (pre ys spare : List ℕ) (y z : ℕ)
      → let i = length pre in
        let n = length (pre ++ (y ∷ ys)) in
        let m = (pre ++ (y ∷ ys)) ++ (z ∷ spare) in
        (if i == n then set m i item else shift_up (n - i) i (get_or m i 0) (set m i item))
        ≡ (pre ++ (item ∷ y ∷ ys)) ++ spare
  stored_middle pre ys spare y z =
      let i = length pre in
      let m = (pre ++ (y ∷ ys)) ++ (z ∷ spare) in
      let tail = ys ++ (z ∷ spare) in
      let count : length (pre ++ (y ∷ ys)) ≡ i + suc (length ys) =
        omega (arith, length-append pre (y ∷ ys)) in
      let rounds : length (pre ++ (y ∷ ys)) - i ≡ suc (length ys) = omega (arith, count) in
      let parts : m ≡ pre ++ (y ∷ tail) = append_assoc pre (y ∷ ys) (z ∷ spare) in
      let read : get_or m i 0 ≡ y =
        ap (λ l. get_or l i 0) parts ∙ get_or-append_at pre tail y 0 i refl in
      let put : set m i item ≡ (pre ++ (item ∷ [])) ++ tail =
        ap (λ l. set l i item) parts
        ∙ set-append_at pre tail y item i refl
        ∙ sym (append_assoc pre (item ∷ []) tail) in
      let miss : (i == length (pre ++ (y ∷ ys))) ≡ false = ground (arith, count) in
      rw (miss, rounds, read, put)
        (shift_up_lem (pre ++ (item ∷ [])) ys spare z y i (length-snoc pre item i refl)
          ∙ append_assoc pre (item ∷ []) (y ∷ (ys ++ spare))
          ∙ sym (append_assoc pre (item ∷ y ∷ ys) spare))

  -- The storage after the insertion, in either branch.
  stored :
      (xs spare : List ℕ) (z : ℕ)
      → let m = xs ++ (z ∷ spare) in
        let i = position lt item (length xs) (length xs) 0 m in
        (if i == length xs
          then set m i item
          else shift_up (length xs - i) i (get_or m i 0) (set m i item))
        ≡ inserted xs ++ spare
  stored xs spare z =
      let m = xs ++ (z ∷ spare) in
      let found : position lt item (length xs) (length xs) 0 m ≡ prefix xs =
        position_lem [] xs (z ∷ spare) (length xs) 0 refl (omega arith) ∙ omega arith in
      rw found (elim (split_lem xs) [
        | inl (e, f) ↦
            rw (e, f)
              (ground (arith, set-append_length xs spare z item, append_assoc xs (item ∷ []) spare))
        | inr (pre, y, ys, e, f, g) ↦ rw (f, g, e) (stored_middle pre ys spare y z)
      ])

  -- `insert_ordered_array`, of an array that holds `xs` with room for one more, holds the list with the
  -- item in front of the first one not below it, and leaves the rest of the storage as it was; an
  -- array whose storage is full is written past its end.
  pub insert-inserted :
      (xs spare : List ℕ)
      → length xs + 1 < 2 ^ 32
      → ((z : ℕ) → insert item (laid lt xs (z ∷ spare)) ≡ some (laid lt (inserted xs) spare))
        × (insert item (laid lt xs []) ≡ none)
  unfolding insert
  insert-inserted xs spare word =
      (λ z. ground (arith, stored xs spare z, length-inserted xs), ground arith)
