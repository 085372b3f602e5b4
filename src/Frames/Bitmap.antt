-- ===== src/Frames/Bitmap.antt =====
-- kernel/arch/x86/page_allocator.c: which frames the bitmap says are used, and the search for a free one.
use beryllium.Base.{
  ℕ, zero, suc, ◌+◌, ◌-◌, ◌*◌, ◌/◌, ◌%◌, ◌^◌, ◌≤◌, ◌<◌, ◌≡◌, refl, ap, ◌∙◌, inl, inr, Bool, true,
  false, Option, none, some, List, [], ◌∷◌, arith, ltb, ◌==◌, if◌then◌else◌, Bool-cases, eq_of_==,
  le→ltb, lt→ltb, length, get_or, set,
}
use beryllium.Bits.{bit, bit-ones, bit_and_test}
use beryllium.Frames.{first_bit, first_from}

-- Whether a frame is used.
unfoldable pub used_at : List ℕ → ℕ → Bool
used_at ws g = bit (get_or ws (g / 0x20) 0) (g % 0x20)

used_at-cons :
    (w : ℕ) (ws : List ℕ) (g : ℕ)
    → used_at (w ∷ ws) g ≡ (if ltb g 32 then bit w g else used_at ws (g - 32))
unfolding used_at
used_at-cons w ws g = elim (Bool-cases (ltb g 32)) [
  | inl low ↦ rw low (
      ap (λ k. bit (get_or (w ∷ ws) k 0) (g % 32)) {x = g / 32} {y = 0} (ground (arith, low))
      ∙ ap (bit w) {x = g % 32} {y = g} (ground (arith, low)))
  | inr high ↦ rw high (
      ap (λ k. bit (get_or (w ∷ ws) k 0) (g % 32)) {x = g / 32} {y = suc ((g - 32) / 32)}
        (ground (arith, high))
      ∙ ap (λ j. bit (get_or ws ((g - 32) / 32) 0) j) {x = g % 32} {y = (g - 32) % 32}
          (ground (arith, high)))
]

-- What the inner loop finds: no clear bit, or the lowest one.
data IsLowest (n j w : ℕ) : Option ℕ → Type 0 where
  all_set : ((i : ℕ) → j ≤ i → i < j + n → bit w i ≡ true) → IsLowest n j w none
  lowest :
      (k : ℕ)
      → j ≤ k
      → k < j + n
      → bit w k ≡ false
      → ((i : ℕ) → j ≤ i → i < k → bit w i ≡ true)
      → IsLowest n j w (some k)

set_from :
    (j m w : ℕ)
    → bit w j ≡ true
    → ((i : ℕ) → j + 1 ≤ i → i < m → bit w i ≡ true)
    → (i : ℕ) → j ≤ i
    → i < m
    → bit w i ≡ true
set_from j m w here h i lo hi = elim (Bool-cases (i == j)) [
  | inl e ↦ rw (eq_of_== i j e) here
  | inr e ↦ h i (ground (arith, e, lo)) hi
]

-- The rest of the loop, behind a bit that is set.
IsLowest-next :
    (n j w : ℕ) (o : Option ℕ) → bit w j ≡ true → IsLowest n (j + 1) w o → IsLowest (suc n) j w o
IsLowest-next n j w o here (all_set h) =
    all_set (λ i lo hi. set_from j (j + 1 + n) w here h i lo (omega (arith, hi)))
IsLowest-next n j w o here (lowest k lo hi clear h) =
    lowest k (omega arith) (omega arith) clear (set_from j k w here h)

first_bit-IsLowest : (n j w : ℕ) → IsLowest n j w (first_bit n j w)
unfolding first_bit
first_bit-IsLowest zero j w = all_set (λ i lo hi. absurd (omega (arith, lo, hi)))
first_bit-IsLowest (suc n) j w =
    let next = first_bit-IsLowest n (j + 1) w in
    let test = bit_and_test w j in
    elim (Bool-cases (bit w j)) [
      | inl set ↦ rw (test, set) (IsLowest-next n j w _ set next)
      | inr clear ↦
          rw (test, clear)
            (lowest j (omega arith) (omega arith) clear (λ i lo hi. absurd (omega (arith, lo, hi))))
    ]

-- What the search finds among words, the first of which has the number `i`: no free frame, or the
-- first one.
pub data IsFirst (i : ℕ) (ws : List ℕ) (f : ℕ) : Type 0 where
  all_used : f ≡ 2 ^ 32 - 1 → ((g : ℕ) → g < 32 * length ws → used_at ws g ≡ true) → IsFirst i ws f
  first :
      (g : ℕ)
      → f ≡ 32 * i + g
      → g < 32 * length ws
      → used_at ws g ≡ false
      → ((h : ℕ) → h < g → used_at ws h ≡ true)
      → IsFirst i ws f

-- A frame of the first word, or of the others.
used_next :
    (w : ℕ) (ws : List ℕ) (m : ℕ)
    → ((j : ℕ) → j < 32 → bit w j ≡ true)
    → ((g : ℕ) → g < m → used_at ws g ≡ true)
    → (g : ℕ) → g < m + 32
    → used_at (w ∷ ws) g ≡ true
used_next w ws m full h g lt = elim (Bool-cases (ltb g 32)) [
  | inl low ↦ used_at-cons w ws g ∙ rw low (full g (ground (arith, low)))
  | inr high ↦ used_at-cons w ws g ∙ rw high (h (g - 32) (ground (arith, high, lt)))
]

-- The rest of the search, behind a word of ones.
IsFirst-next :
    (i w : ℕ) (ws : List ℕ) (f : ℕ)
    → ((j : ℕ) → j < 32 → bit w j ≡ true)
    → IsFirst (i + 1) ws f
    → IsFirst i (w ∷ ws) f
IsFirst-next i w ws f full (all_used e h) =
    all_used e (λ g lt. used_next w ws (32 * length ws) full h g (omega (arith, lt)))
IsFirst-next i w ws f full (first g e lt free h) =
    first (g + 32) (omega (arith, e)) (omega (arith, lt)) (used_at-cons w ws (g + 32) ∙ free_there)
      (used_next w ws g full h)
  where
    free_there : (if ltb (g + 32) 32 then bit w (g + 32) else used_at ws (g + 32 - 32)) ≡ false
    free_there =
        rw (le→ltb (g + 32) 32 (omega arith))
          (ap (used_at ws) {x = g + 32 - 32} {y = g} (omega arith) ∙ free)

IsFirst-found :
    (i w : ℕ) (ws : List ℕ) (k : ℕ)
    → k < 32
    → 32 * (i + suc (length ws)) ≤ 2 ^ 32
    → bit w k ≡ false
    → ((j : ℕ) → j < k → bit w j ≡ true)
    → IsFirst i (w ∷ ws) ((i * 32 + k) % 2 ^ 32)
IsFirst-found i w ws k lt small clear h =
    first k (omega (arith, lt, small)) (omega (arith, lt))
      (used_at-cons w ws k ∙ rw (lt→ltb k 32 lt) clear)
      (λ j low. used_at-cons w ws j ∙ rw (lt→ltb j 32 (omega (arith, low, lt))) (h j low))

pub first_from-IsFirst :
    (i : ℕ) (ws : List ℕ) → 32 * (i + length ws) ≤ 2 ^ 32 → IsFirst i ws (first_from i ws)
unfolding first_from
first_from-IsFirst i [] small = all_used refl (λ g lt. absurd (omega (arith, lt)))
first_from-IsFirst i (w ∷ ws) small =
    let rest = first_from-IsFirst (i + 1) ws (omega (arith, small)) in
    elim (Bool-cases (w == 0xFFFFFFFF)) [
      | inl ones ↦
          rw ones (IsFirst-next i w ws _ (λ j lt. rw (eq_of_== w _ ones) (bit-ones j lt)) rest)
      | inr other ↦ rw other (go (first_bit 32 0 w) (first_bit-IsLowest 32 0 w) rest)
    ]
  where
    go :
        (o : Option ℕ)
        → IsLowest 32 0 w o
        → IsFirst (i + 1) ws (first_from (i + 1) ws)
        → IsFirst i
            (w ∷ ws)
            (elim o [ none ↦ first_from (i + 1) ws | some j ↦ (i * 0x20 + j) % 2 ^ 32 ])
    go o (all_set h) rest = IsFirst-next i w ws _ (λ j lt. h j (omega arith) lt) rest
    go o (lowest k lo hi clear h) rest =
        IsFirst-found i w ws k hi small clear (λ j. h j (omega arith))
