-- ===== src/Strings/Compare.antt =====
-- kernel/lib/string.c: what `strcmp` decides.
use beryllium.Base.{
  ℕ, ◌<◌, ◌≡◌, refl, inl, inr, ◌↔◌, true, List, [], ◌∷◌, arith, ◌==◌, Bool-cases, eq_of_==,
}
use beryllium.Strings.{int_of_char, difference, strcmp}

-- The characters that a string can hold in front of its NUL.
pub data IsText : List ℕ → Type 0 where
  none_left : IsText []
  one_more : {c : ℕ} {cs : List ℕ} → 0 < c → c < 256 → IsText cs → IsText (c ∷ cs)

difference_zero : (c1 c2 : ℕ) → c1 < 256 → c2 < 256 → difference c1 c2 ≡ 0 → c1 ≡ c2
unfolding difference int_of_char
difference_zero c1 c2 h1 h2 e = ground arith

eq_refl : (n : ℕ) → (n == n) ≡ true
eq_refl n = ground arith

strcmp-eq : (s1 s2 : List ℕ) → IsText s1 → IsText s2 → strcmp s1 s2 ≡ 0 → s1 ≡ s2
unfolding strcmp
strcmp-eq [] [] t1 t2 e = refl
strcmp-eq [] (c2 ∷ s2) t1 (one_more lo hi t2) e =
    absurd (omega (arith, difference_zero 0 c2 (omega arith) hi e, lo))
strcmp-eq (c1 ∷ s1) [] (one_more lo hi t1) t2 e =
    absurd (omega (arith, difference_zero c1 0 hi (omega arith) e, lo))
strcmp-eq (c1 ∷ s1) (c2 ∷ s2) (one_more lo1 hi1 t1) (one_more lo2 hi2 t2) e =
    elim (Bool-cases (c1 == c2)) [
      | inl same ↦
          let tails = strcmp-eq s1 s2 t1 t2 (rw same at e) in let heads = eq_of_== c1 c2 same in cc
      | inr different ↦
          let same = difference_zero c1 c2 hi1 hi2 (rw different at e) in
          cc (rw (same, eq_refl c2) at different)
    ]

pub strcmp_refl : (s : List ℕ) → strcmp s s ≡ 0
unfolding strcmp
strcmp_refl [] = refl
strcmp_refl (c ∷ s) = rw (eq_refl c) (strcmp_refl s)

-- `strcmp` of two strings of bytes is 0 if and only if they are equal.
pub strcmp_zero : (s1 s2 : List ℕ) → IsText s1 → IsText s2 → (strcmp s1 s2 ≡ 0) ↔ (s1 ≡ s2)
strcmp_zero s1 s2 t1 t2 = (strcmp-eq s1 s2 t1 t2, λ e. rw e (strcmp_refl s2))
