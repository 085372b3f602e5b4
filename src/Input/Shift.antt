-- ===== src/Input/Shift.antt =====
-- kernel/input.c and kernel/arch/x86/drivers/keyboard.c: the loop that moves the buffer down by one.
use mathlib.Core.List.{append_assoc}
use beryllium.Base.{
  ℕ, suc, ◌+◌, ◌<◌, ◌≡◌, refl, sym, ap, ◌∙◌, List, [], ◌∷◌, ◌++◌, arith, length, length-append,
  get_or, set-append_length,
}
use beryllium.Input.{size, shift_round, shift_from}

-- The item `y` at index `length xs` is overwritten by its successor.
get_or_next : (xs ys : List ℕ) (y z : ℕ) → get_or (xs ++ (y ∷ z ∷ ys)) (length xs + 1) 0 ≡ z
get_or_next [] ys y z = refl
get_or_next (x ∷ xs) ys y z =
    ap (λ i. get_or ((x ∷ xs) ++ (y ∷ z ∷ ys)) i 0) {x = suc (length xs) + 1}
      {y = suc (length xs + 1)} (omega arith)
    ∙ get_or_next xs ys y z

round_last :
    (past : ℕ) (xs : List ℕ) (y : ℕ)
    → length xs + 1 ≡ size
    → shift_round (length xs) past (xs ++ (y ∷ [])) ≡ xs ++ (past ∷ [])
unfolding shift_round
round_last past xs y full = ground (arith, set-append_length xs [] y past)

round_middle :
    (past : ℕ) (xs ys : List ℕ) (y z : ℕ)
    → length xs + 1 < size
    → shift_round (length xs) past (xs ++ (y ∷ z ∷ ys)) ≡ xs ++ (z ∷ z ∷ ys)
unfolding shift_round
round_middle past xs ys y z room =
    ground (arith, get_or_next xs ys y z, set-append_length xs (z ∷ ys) y z)

shift_from_lem :
    (past : ℕ) (xs ys : List ℕ) (y : ℕ)
    → length xs + suc (length ys) ≡ size
    → shift_from (suc (length ys)) (length xs) past (xs ++ (y ∷ ys)) ≡ xs ++ (ys ++ (past ∷ []))
unfolding shift_from
shift_from_lem past xs [] y full = round_last past xs y (omega arith)
shift_from_lem past xs (z ∷ ys) y full =
    let grown : length (xs ++ (z ∷ [])) ≡ length xs + 1 =
      omega (arith, length-append xs (z ∷ [])) in
    ap (shift_from (suc (length ys)) (length xs + 1) past)
      (round_middle past xs ys y z (omega arith) ∙ sym (append_assoc xs (z ∷ []) (z ∷ ys)))
    ∙ rw (← grown) (shift_from_lem past (xs ++ (z ∷ [])) ys z (omega arith))
    ∙ append_assoc xs (z ∷ []) (ys ++ (past ∷ []))

-- The whole loop drops the first byte and lets the byte behind the array in at the end.
pub shift_lem :
    (past y : ℕ) (ys : List ℕ)
    → suc (length ys) ≡ size
    → shift_from size 0 past (y ∷ ys) ≡ ys ++ (past ∷ [])
shift_lem past y ys full = rw (← full) (shift_from_lem past [] ys y (omega arith))
