-- ===== src/OrderedArray/Remove.antt =====
-- kernel/arch/x86/lib/ordered_array.c: `remove_ordered_array`.
use mathlib.Core.Path.{ap₂}
use mathlib.Core.List.{append_assoc}
use beryllium.Base.{
  get_or-append_at, set-append_at, length-snoc, ℕ, suc, ◌+◌, ◌-◌, ◌<◌, ◌≡◌, refl, sym, ap, ◌∙◌, ◌^◌,
  Bool, List, [], ◌∷◌, ◌++◌, arith, length, length-append, get_or,
}
use beryllium.OrderedArray.{down_round, shift_down, remove}
use beryllium.OrderedArray.Insert.{laid}

-- What the last round picks up: the first spare word, or the one behind the storage.
abbrev pub behind : (past : ℕ) → List ℕ → ℕ
behind past [] = past
behind past (z ∷ spare) = z

round_middle :
    (max past : ℕ) (pre ys : List ℕ) (y z i : ℕ)
    → i ≡ length pre
    → i + 1 < max
    → down_round max past i (pre ++ (y ∷ z ∷ ys)) ≡ pre ++ (z ∷ z ∷ ys)
unfolding down_round
round_middle max past pre ys y z i e room =
    let next : get_or (pre ++ (y ∷ z ∷ ys)) (i + 1) 0 ≡ z =
      ap (λ l. get_or l (i + 1) 0) (sym (append_assoc pre (y ∷ []) (z ∷ ys)))
      ∙ get_or-append_at (pre ++ (y ∷ [])) ys z 0 (i + 1) (length-snoc pre y i e) in
    ground (arith, next, set-append_at pre (z ∷ ys) y z i e)

round_last :
    (max past : ℕ) (pre : List ℕ) (y i : ℕ)
    → i ≡ length pre
    → i + 1 ≡ max
    → down_round max past i (pre ++ (y ∷ [])) ≡ pre ++ (past ∷ [])
unfolding down_round
round_last max past pre y i e full = ground (arith, set-append_at pre [] y past i e)

shift_down_lem :
    (max past : ℕ) (pre ys spare : List ℕ) (y i : ℕ)
    → i ≡ length pre
    → max ≡ length pre + suc (length ys) + length spare
    → shift_down max past (suc (length ys)) i (pre ++ (y ∷ (ys ++ spare)))
      ≡ pre ++ (ys ++ (behind past spare ∷ spare))
unfolding shift_down
shift_down_lem max past pre [] [] y i e f = round_last max past pre y i e (omega arith)
shift_down_lem max past pre [] (z ∷ spare) y i e f =
    round_middle max past pre spare y z i e (omega arith)
shift_down_lem max past pre (x ∷ ys) spare y i e f =
    ap (shift_down max past (suc (length ys)) (i + 1)) (
      round_middle max past pre (ys ++ spare) y x i e (omega arith)
      ∙ sym (append_assoc pre (x ∷ []) (x ∷ (ys ++ spare))))
    ∙ shift_down_lem max past (pre ++ (x ∷ [])) ys spare x (i + 1) (length-snoc pre x i e)
        (omega (arith, length-append pre (x ∷ [])))
    ∙ append_assoc pre (x ∷ []) (ys ++ (behind past spare ∷ spare))

-- `remove_ordered_array` of the index of an item takes that item out and keeps the others in order.
-- Of an index behind the items it takes the last one out all the same, and the size of an empty
-- array becomes 2^32 - 1.
pub remove-erases :
    (lt : ℕ → ℕ → Bool) (past y : ℕ) (pre ys spare : List ℕ)
    → length pre + suc (length ys) < 2 ^ 32
    → (remove past (length pre) (laid lt (pre ++ (y ∷ ys)) spare)
        ≡ laid lt (pre ++ ys) (behind past spare ∷ spare))
      × ((i : ℕ)
          → length pre < i
          → remove past i (laid lt (pre ++ (y ∷ [])) spare) ≡ laid lt pre (y ∷ spare))
      × ((remove past 0 (laid lt [] spare)).size ≡ 2 ^ 32 - 1)
unfolding remove shift_down
remove-erases lt past y pre ys spare word =
    let count : length (pre ++ (y ∷ ys)) ≡ length pre + suc (length ys) =
      omega (arith, length-append pre (y ∷ ys)) in
    let one : length (pre ++ (y ∷ [])) ≡ length pre + 1 =
      omega (arith, length-append pre (y ∷ [])) in
    let rounds : length (pre ++ (y ∷ ys)) - length pre ≡ suc (length ys) = omega (arith, count) in
    let max = length (pre ++ (y ∷ ys)) + length spare in
    let moved : shift_down max past (length (pre ++ (y ∷ ys)) - length pre) (length pre)
          ((pre ++ (y ∷ ys)) ++ spare)
        ≡ (pre ++ ys) ++ (behind past spare ∷ spare) =
      ap₂ (λ n l. shift_down max past n (length pre) l) rounds (append_assoc pre (y ∷ ys) spare)
      ∙ shift_down_lem max past pre ys spare y (length pre) refl (omega (arith, count))
      ∙ sym (append_assoc pre ys (behind past spare ∷ spare)) in
    (
      ground (arith, moved, count, length-append pre ys),
      λ i past_end.
          let none_left : length (pre ++ (y ∷ [])) - i ≡ 0 = omega (arith, one) in
          ground (
            arith,
            none_left,
            one,
            ap
                (λ n.
                  shift_down (length (pre ++ (y ∷ [])) + length spare) past n i
                    ((pre ++ (y ∷ [])) ++ spare))
                none_left,
            append_assoc pre (y ∷ []) spare,
          ),
      refl,
    )
