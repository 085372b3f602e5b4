-- ===== src/Printf/Digits.antt =====
-- kernel/printf.c: the digits of a number, read back.
use native.Mathlib.Nat.{pow-suc, div-add-mod', div-lt_iff_lt-mul}
use beryllium.Base.{
  ℕ, zero, suc, ◌+◌, ◌-◌, ◌*◌, ◌/◌, ◌%◌, ◌^◌, ◌≤◌, ◌<◌, ◌≡◌, ap, ◌∙◌, inl, inr, Bool, List, [], ◌∷◌,
  arith, ltb, ◌==◌, if◌then◌else◌, Bool-cases, length, eq_of_==,
}
use beryllium.Printf.Convert.{digit, digits_from, digits}

-- What a digit's character stands for.
pub undigit : ℕ → ℕ
undigit c = if ltb c 58 then c - 48 else if ltb c 91 then c - 55 else c - 87

-- The number that the characters stand for, behind those of `acc`.
pub value : (radix acc : ℕ) → List ℕ → ℕ
value radix acc [] = acc
value radix acc (c ∷ cs) = value radix (acc * radix + undigit c) cs

undigit-digit : (ca : Bool) (d : ℕ) → d < 16 → undigit (digit ca d) ≡ d
unfolding undigit digit
undigit-digit ca d h = ground arith

digit_small : (radix num : ℕ) → 8 ≤ radix → radix ≤ 16 → num % radix < 16
digit_small radix num lo hi = grind arith

quotient_digit : (radix num : ℕ) → num / radix * radix + num % radix ≡ num
quotient_digit radix num = div-add-mod' num radix

last_digit : (radix num : ℕ) → 8 ≤ radix → num / radix ≡ 0 → 0 * radix + num % radix ≡ num
last_digit radix num lo e = omega (arith, div-add-mod' num radix, ap (λ (t : ℕ). t * radix) e)

quotient_small : (n radix num : ℕ) → 8 ≤ radix → num < 8 ^ suc n → num / radix < 8 ^ n
quotient_small n radix num lo h = (div-lt_iff_lt-mul (omega arith)).1 (grind (arith, pow-suc 8 n))

value-digits_from :
    (n : ℕ) (ca : Bool) (radix num : ℕ) (cs : List ℕ)
    → 8 ≤ radix
    → radix ≤ 16
    → num < 8 ^ n
    → value radix 0 (digits_from n ca radix num cs) ≡ value radix num cs
unfolding value digits_from
value-digits_from zero ca radix num cs lo hi h = ap (λ k. value radix k cs) (omega arith)
value-digits_from (suc n) ca radix num cs lo hi h =
    let d = num % radix in
    let back = undigit-digit ca d (digit_small radix num lo hi) in
    let cons : (k : ℕ) → value radix k (digit ca d ∷ cs) ≡ value radix (k * radix + d) cs =
      λ k. ap (λ u. value radix (k * radix + u) cs) back in
    elim (Bool-cases (num / radix == 0)) [
      | inl last ↦
          rw last
            (cons 0 ∙ ap (λ k. value radix k cs) (last_digit radix num lo (eq_of_== _ _ last)))
      | inr more ↦ rw more (
          value-digits_from n ca radix (num / radix) (digit ca d ∷ cs) lo hi
            (quotient_small n radix num lo h)
          ∙ cons (num / radix)
          ∙ ap (λ k. value radix k cs) (quotient_digit radix num))
    ]

length-digits_from :
    (n : ℕ) (ca : Bool) (radix num : ℕ) (cs : List ℕ)
    → length (digits_from n ca radix num cs) ≤ n + length cs
unfolding digits_from
length-digits_from zero ca radix num cs = omega arith
length-digits_from (suc n) ca radix num cs =
    ground (arith, length-digits_from n ca radix (num / radix) (digit ca (num % radix) ∷ cs))

-- For each radix of `do_printf` and each 32-bit number, the characters that the conversion writes
-- read back as the number, and there are at most 11 of them, so that they and the NUL fit into the
-- buffer of PR_BUFLEN bytes.
pub value-digits :
    (ca : Bool) (radix num : ℕ)
    → 8 ≤ radix
    → radix ≤ 16
    → num < 2 ^ 32
    → (value radix 0 (digits ca radix num) ≡ num) × (length (digits ca radix num) ≤ 11)
unfolding digits value
value-digits ca radix num lo hi h = (
  value-digits_from 11 ca radix num [] lo hi (omega arith),
  omega (arith, length-digits_from 11 ca radix num []),
)
