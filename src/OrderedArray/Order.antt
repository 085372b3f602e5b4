-- ===== src/OrderedArray/Order.antt =====
-- kernel/arch/x86/lib/ordered_array.c: insertion keeps the order and loses nothing.
use mathlib.Core.List.{Perm}
use mathlib.Core.List.Perm
use beryllium.Base.{
  ℕ, ◌+◌, ◌<◌, ◌^◌, some, length, ◌≡◌, Bool, true, false, List, [], ◌∷◌, Bool-cases, inl, inr,
}
use beryllium.OrderedArray.{insert}
use beryllium.OrderedArray.Insert.{laid, inserted, insert-inserted}

module _ (lt : ℕ → ℕ → Bool) where
  -- No item is below the one in front of it.
  abbrev pub IsSorted : List ℕ → Type 0
  IsSorted [] = Unit {0}
  IsSorted (x ∷ []) = Unit {0}
  IsSorted (x ∷ y ∷ ys) = (lt y x ≡ false) × IsSorted (y ∷ ys)

  module _ (asym : (a b : ℕ) → lt a b ≡ true → lt b a ≡ false) where
    inserted_below :
        (item x : ℕ) (xs : List ℕ)
        → IsSorted (x ∷ xs)
        → lt x item ≡ true
        → IsSorted (inserted lt item xs)
        → IsSorted (x ∷ inserted lt item xs)
    unfolding inserted
    inserted_below item x [] s b t = (asym x item b, tt)
    inserted_below item x (y ∷ ys) s b t = elim (Bool-cases (lt y item)) [
      | inl below ↦ rw below (s.0, rw below at t)
      | inr above ↦ rw above (asym x item b, rw above at t)
    ]

    IsSorted-tail : (x : ℕ) (xs : List ℕ) → IsSorted (x ∷ xs) → IsSorted xs
    IsSorted-tail x [] s = tt
    IsSorted-tail x (y ∷ ys) s = s.1

    inserted-IsSorted :
        (item : ℕ) (xs : List ℕ)
        → IsSorted xs
        → IsSorted (inserted lt item xs) × Perm (inserted lt item xs) (item ∷ xs)
    unfolding inserted
    inserted-IsSorted item [] s = (tt, Perm.refl _)
    inserted-IsSorted item (x ∷ xs) s =
        let ih = inserted-IsSorted item xs (IsSorted-tail x xs s) in
        elim (Bool-cases (lt x item)) [
          | inl below ↦
              let t = inserted_below item x xs s below ih.0 in
              rw below (t, Perm.trans (Perm.cons x ih.1) (Perm.swap item x xs))
          | inr above ↦ rw above ((above, s), Perm.refl _)
        ]

    -- For a predicate that never holds both ways round, `insert_ordered_array` of a sorted array with
    -- room for one more succeeds, leaves it sorted, and its items are the old ones and the new one.
    pub insert-IsSorted :
        (item z : ℕ) (xs spare : List ℕ)
        → length xs + 1 < 2 ^ 32
        → IsSorted xs
        → (ys : List ℕ) × (insert item (laid lt xs (z ∷ spare)) ≡ some (laid lt ys spare))
          × IsSorted ys
          × Perm ys (item ∷ xs)
    insert-IsSorted item z xs spare word s = (
      inserted lt item xs,
      (insert-inserted lt item xs spare word).0 z,
      (inserted-IsSorted item xs s).0,
      (inserted-IsSorted item xs s).1,
    )
