-- ===== src/Bits.antt =====
-- The bits of a word under the operators `&`, `|`, `~` and `<<` of the sources.
use Prim.Native.Nat.{min, max, digits, bitwise, bit_and, bit_or, bit_and-bitwise, bit_or-bitwise}
use native.Mathlib.Nat.{pow-suc}
use beryllium.Base.{
  ℕ, zero, suc, ◌+◌, ◌-◌, ◌*◌, ◌/◌, ◌%◌, ◌^◌, ◌≤◌, ◌<◌, ◌≡◌, refl, sym, ap, ◌∙◌, inl, inr, Bool,
  true, false, not, ◌&&◌, ◌||◌, arith, ◌==◌, if◌then◌else◌, Bool-cases, eq_of_==,
}

-- The bit of a word at a position, from the lowest one up.
unfoldable pub bit : ℕ → ℕ → Bool
bit w zero = w % 2 == 1
bit w (suc j) = bit (w / 2) j

-- The digits beyond the first number's are those that `z` gives.
module _ (z : ℕ → ℕ) (f : ℕ → ℕ → ℕ) where
  digits_enough : (n m a b : ℕ) → a ≤ n → a ≤ m → digits z f n a b ≡ digits z f m a b
  digits_enough zero m (suc a) b h k = absurd (omega (arith, h))
  digits_enough (suc n) zero (suc a) b h k = absurd (omega (arith, k))
  digits_enough (suc n) (suc m) (suc a) b h k =
      ap (λ r. r * 2 + f (suc a % 2) (b % 2))
        (digits_enough n m (suc a / 2) (b / 2) (omega arith) (omega arith))
  digits_enough zero zero zero b h k = refl
  digits_enough zero (suc m) zero b h k = refl
  digits_enough (suc n) zero zero b h k = refl
  digits_enough (suc n) (suc m) zero b h k = refl

  bitwise_lowest :
      (a b : ℕ)
      → z b ≡ z (b / 2) * 2 + f 0 (b % 2)
      → bitwise z f a b ≡ bitwise z f (a / 2) (b / 2) * 2 + f (a % 2) (b % 2)
  bitwise_lowest zero b h = h
  bitwise_lowest (suc a) b h =
      ap (λ r. r * 2 + f (suc a % 2) (b % 2))
        (digits_enough a (suc a / 2) (suc a / 2) (b / 2) (omega arith) (omega arith))

and_lowest : (a b : ℕ) → bit_and a b ≡ bit_and (a / 2) (b / 2) * 2 + min (a % 2) (b % 2)
and_lowest a b =
    bit_and-bitwise a b
    ∙ bitwise_lowest (λ b. zero) min a b (omega arith)
    ∙ ap (λ r. r * 2 + min (a % 2) (b % 2)) (sym (bit_and-bitwise (a / 2) (b / 2)))

or_lowest : (a b : ℕ) → bit_or a b ≡ bit_or (a / 2) (b / 2) * 2 + max (a % 2) (b % 2)
or_lowest a b =
    bit_or-bitwise a b
    ∙ bitwise_lowest (λ b. b) max a b (omega arith)
    ∙ ap (λ r. r * 2 + max (a % 2) (b % 2)) (sym (bit_or-bitwise (a / 2) (b / 2)))

pub bit-bit_and : (a b j : ℕ) → bit (bit_and a b) j ≡ (bit a j && bit b j)
unfolding bit
bit-bit_and a b zero = ground (arith, and_lowest a b)
bit-bit_and a b (suc j) =
    ap (λ w. bit w j) {x = bit_and a b / 2} {y = bit_and (a / 2) (b / 2)}
      (omega (arith, and_lowest a b))
    ∙ bit-bit_and (a / 2) (b / 2) j

pub bit-bit_or : (a b j : ℕ) → bit (bit_or a b) j ≡ (bit a j || bit b j)
unfolding bit
bit-bit_or a b zero = ground (arith, or_lowest a b)
bit-bit_or a b (suc j) =
    ap (λ w. bit w j) {x = bit_or a b / 2} {y = bit_or (a / 2) (b / 2)}
      (omega (arith, or_lowest a b))
    ∙ bit-bit_or (a / 2) (b / 2) j

pub bit-zero : (j : ℕ) → bit 0 j ≡ false
unfolding bit
bit-zero zero = refl
bit-zero (suc j) = bit-zero j

pub bit-pow : (i j : ℕ) → bit (2 ^ i) j ≡ (i == j)
unfolding bit
bit-pow zero zero = refl
bit-pow zero (suc j) = bit-zero j ∙ ground arith
bit-pow (suc i) zero = ground (arith, pow-suc 2 i)
bit-pow (suc i) (suc j) =
    ap (λ w. bit w j) {x = 2 ^ suc i / 2} {y = 2 ^ i} (omega (arith, pow-suc 2 i))
    ∙ bit-pow i j
    ∙ ground arith

and_zero : (n a : ℕ) → a ≤ n → bit_and a 0 ≡ 0
and_zero n zero h = refl
and_zero zero (suc a) h = absurd (omega (arith, h))
and_zero (suc n) (suc a) h =
    omega (arith, and_lowest (suc a) 0, and_zero n (suc a / 2) (omega (arith, h)))

bit_and-pow : (w j : ℕ) → bit_and w (2 ^ j) ≡ (if bit w j then 2 ^ j else 0)
unfolding bit
bit_and-pow w zero = ground (arith, and_lowest w 1, and_zero (w / 2) (w / 2) (omega arith))
bit_and-pow w (suc j) =
    let half : 2 ^ suc j / 2 ≡ 2 ^ j = omega (arith, pow-suc 2 j) in
    ground (
      arith,
      and_lowest w (2 ^ suc j),
      pow-suc 2 j,
      ap (bit_and (w / 2)) half,
      bit_and-pow (w / 2) j,
    )

pow_positive : (j : ℕ) → 0 < 2 ^ j
pow_positive zero = omega arith
pow_positive (suc j) = omega (arith, pow-suc 2 j, pow_positive j)

-- The test `w & (1 << j)`.
pub bit_and_test : (w j : ℕ) → (bit_and w (2 ^ j) == 0) ≡ not (bit w j)
bit_and_test w j = ground (arith, bit_and-pow w j, pow_positive j)

-- All of the bits below `n`, as decided by running through them.
unfoldable pub all_below : ℕ → (ℕ → Bool) → Bool
all_below zero p = true
all_below (suc n) p = p n && all_below n p

pub all_below-true : (n : ℕ) (p : ℕ → Bool) (i : ℕ) → all_below n p ≡ true → i < n → p i ≡ true
unfolding all_below
all_below-true zero p i h k = absurd (omega (arith, k))
all_below-true (suc n) p i h k = elim (Bool-cases (i == n)) [
  | inl e ↦ rw (eq_of_== i n e) (ground (arith, h))
  | inr e ↦ all_below-true n p i (ground (arith, h)) (ground (arith, e, k))
]

-- A word of ones.
pub bit-ones : (j : ℕ) → j < 32 → bit (2 ^ 32 - 1) j ≡ true
unfolding all_below bit
bit-ones j h = all_below-true 32 (λ j. bit (2 ^ 32 - 1) j) j refl h

complement_bit : ℕ → ℕ → Bool
complement_bit i j = if i == j then not (bit (2 ^ 32 - 1 - 2 ^ i) j) else bit (2 ^ 32 - 1 - 2 ^ i) j

-- `~(1 << i)`
pub bit-complement : (i j : ℕ) → i < 32 → j < 32 → bit (2 ^ 32 - 1 - 2 ^ i) j ≡ not (i == j)
unfolding all_below bit complement_bit
bit-complement i j h k =
    let all = all_below-true 32 (λ i. all_below 32 (complement_bit i)) i refl h in
    let one = all_below-true 32 (complement_bit i) j all k in ground (arith, one)
