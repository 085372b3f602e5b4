-- ===== src/Frames/Allocation.antt =====
-- kernel/arch/x86/page_allocator.c: which frame a page gets.
use Prim.Native.Nat.{bit_and, bit_or}
use beryllium.Base.{
  ℕ, zero, suc, ◌-◌, ◌*◌, ◌/◌, ◌%◌, ◌^◌, ◌≤◌, ◌<◌, ◌≡◌, ◌≢◌, refl, sym, ap, ◌∙◌, ◌⊎◌, inl, inr,
  Bool, true, false, not, ◌&&◌, ◌||◌, some, List, [], ◌∷◌, arith, ltb, lt→ltb, ◌==◌, if◌then◌else◌,
  Bool-cases, eq_of_==, length, length-take, get_or, set, take, get_or-set_self, get_or-set_ne,
}
use beryllium.Bits.{bit, bit-bit_and, bit-bit_or, bit-pow, bit-complement}
use beryllium.Timing.{int_lt}
use beryllium.Frames.{
  Frames, Page, index_from_bit, offset_from_bit, set_frame, first_frame, alloc_frame,
}
use beryllium.Frames.Bitmap.{used_at, IsFirst, all_used, first, first_from-IsFirst}

-- The memory from the bitmap on has a bit for each frame that the search covers.
pub record IsBitmap (s : Frames) : Type 0 where
  pub words : s.frame_amount / 32 ≤ length s.frame
  pub numbers : s.frame_amount < 2 ^ 32

-- The frames that the search covers: whole words of the bitmap.
abbrev pub covered : Frames → ℕ
covered s = 32 * (s.frame_amount / 32)

or_swap : (b p q : Bool) → p ≡ q → (b || p) ≡ (q || b)
or_swap true p true e = refl
or_swap true p false e = refl
or_swap false p true e = e
or_swap false p false e = e

and_true : (b c : Bool) → c ≡ false → (b && not c) ≡ b
and_true true c e = ap not e
and_true false c e = refl

same_offset : (f g : ℕ) → g / 32 ≡ f / 32 → (f % 32 == g % 32) ≡ (f == g)
same_offset f g e = ground (arith, e)

other_word : (f g : ℕ) → (g / 32 == f / 32) ≡ false → (f / 32 ≢ g / 32) × ((f == g) ≡ false)
other_word f g e = (λ q. ground (arith, e, q), ground (arith, e))

used_at-set :
    (ws : List ℕ) (f g : ℕ)
    → f / 32 < length ws
    → used_at (set ws (f / 32) (bit_or (get_or ws (f / 32) 0) (2 ^ (f % 32)))) g
      ≡ ((f == g) || used_at ws g)
unfolding used_at
used_at-set ws f g lt =
    let w = get_or ws (f / 32) 0 in
    let v = bit_or w (2 ^ (f % 32)) in
    elim (Bool-cases (g / 32 == f / 32)) [
      | inl e ↦
          let same = eq_of_== (g / 32) (f / 32) e in
          let one = bit-pow (f % 32) (g % 32) ∙ same_offset f g same in
          rw (same, get_or-set_self ws (f / 32) v 0 lt)
            (bit-bit_or w (2 ^ (f % 32)) (g % 32) ∙ or_swap (bit w (g % 32)) _ (f == g) one)
      | inr e ↦
          let (word, frame) = other_word f g e in
          ap (λ u. bit u (g % 32)) (get_or-set_ne ws (f / 32) (g / 32) v 0 word)
          ∙ ap (λ b. b || bit (get_or ws (g / 32) 0) (g % 32)) {x = false} {y = f == g} (sym frame)
    ]

pub used_at-clear :
    (ws : List ℕ) (f g : ℕ)
    → f / 32 < length ws
    → used_at (set ws (f / 32) (bit_and (get_or ws (f / 32) 0) (2 ^ 32 - 1 - 2 ^ (f % 32)))) g
      ≡ (used_at ws g && not (f == g))
unfolding used_at
used_at-clear ws f g lt =
    let w = get_or ws (f / 32) 0 in
    let v = bit_and w (2 ^ 32 - 1 - 2 ^ (f % 32)) in
    elim (Bool-cases (g / 32 == f / 32)) [
      | inl e ↦
          let same = eq_of_== (g / 32) (f / 32) e in
          let one =
            bit-complement (f % 32) (g % 32) (omega arith) (omega arith)
            ∙ ap not (same_offset f g same) in
          rw (same, get_or-set_self ws (f / 32) v 0 lt)
            (bit-bit_and w (2 ^ 32 - 1 - 2 ^ (f % 32)) (g % 32) ∙ ap (λ b. bit w (g % 32) && b) one)
      | inr e ↦
          let (word, frame) = other_word f g e in
          ap (λ u. bit u (g % 32)) (get_or-set_ne ws (f / 32) (g / 32) v 0 word)
          ∙ sym (and_true (bit (get_or ws (g / 32) 0) (g % 32)) (f == g) frame)
    ]

get_or-take : (n i : ℕ) (ws : List ℕ) → i < n → get_or (take n ws) i 0 ≡ get_or ws i 0
get_or-take zero i ws lt = absurd (omega (arith, lt))
get_or-take (suc n) i [] lt = refl
get_or-take (suc n) zero (w ∷ ws) lt = refl
get_or-take (suc n) (suc i) (w ∷ ws) lt = get_or-take n i ws (omega (arith, lt))

used_at-take : (n g : ℕ) (ws : List ℕ) → g < 32 * n → used_at (take n ws) g ≡ used_at ws g
unfolding used_at
used_at-take n g ws lt = ap (λ w. bit w (g % 32)) (get_or-take n (g / 32) ws (omega (arith, lt)))

-- What `pa_first_frame` may find.
pub IsFound : Frames → Type 0
IsFound s =
    ((first_frame s ≡ 2 ^ 32 - 1) × ((g : ℕ) → g < covered s → used_at s.frame g ≡ true))
    ⊎ ((first_frame s < covered s)
        × (used_at s.frame (first_frame s) ≡ false)
        × ((g : ℕ) → g < first_frame s → used_at s.frame g ≡ true))

found :
    (s : Frames) (f : ℕ)
    → length (take (s.frame_amount / 32) s.frame) ≡ s.frame_amount / 32
    → IsFirst 0 (take (s.frame_amount / 32) s.frame) f
    → ((f ≡ 2 ^ 32 - 1) × ((g : ℕ) → g < covered s → used_at s.frame g ≡ true))
      ⊎ ((f < covered s)
          × (used_at s.frame f ≡ false)
          × ((g : ℕ) → g < f → used_at s.frame g ≡ true))
found s f size (all_used e h) =
    let n = s.frame_amount / 32 in
    inl (e, λ g lt. sym (used_at-take n g s.frame lt) ∙ h g (omega (arith, lt, size)))
found s f size (first g e lt free h) =
    let n = s.frame_amount / 32 in
    let same : f ≡ g = omega (arith, e) in
    let inside : g < 32 * n = omega (arith, lt, size) in
    inr (
      omega (arith, same, inside),
      ap (used_at s.frame) same ∙ sym (used_at-take n g s.frame inside) ∙ free,
      λ k low.
          sym (used_at-take n k s.frame (omega (arith, low, same, inside)))
          ∙ h k (omega (arith, low, same)),
    )

-- `pa_first_frame` returns the lowest frame that is not used, or -1 if every frame that the whole
-- words of the bitmap cover is used.
pub first_frame-IsFound : (s : Frames) → IsBitmap s → IsFound s
unfolding IsFound first_frame index_from_bit
first_frame-IsFound s ok =
    let n = s.frame_amount / 32 in
    let size : length (take n s.frame) ≡ n = omega (arith, length-take n s.frame, ok.words) in
    found s _ size (first_from-IsFirst 0 (take n s.frame) (omega (arith, size, ok.numbers)))

below_spare :
    (s : Frames) (index spare : ℕ)
    → spare < 2 ^ 20
    → used_at s.frame spare ≡ false
    → ((g : ℕ) → g < index → used_at s.frame g ≡ true)
    → index < 2 ^ 20
below_spare s index spare bits free lowest = elim (Bool-cases (ltb spare index)) [
  | inl above ↦ cc (lowest spare (ground (arith, above)), free)
  | inr below ↦ ground (arith, below, bits)
]

set_frame-marks :
    (address f : ℕ) (s : Frames)
    → address / 0x1000 ≡ f
    → f / 32 < length s.frame
    → (s' : Frames) × (set_frame address s ≡ some s')
      × ((g : ℕ) → used_at s'.frame g ≡ ((f == g) || used_at s.frame g))
unfolding set_frame index_from_bit offset_from_bit
set_frame-marks address f s e lt = rw (e, lt→ltb _ _ lt) (_, refl, λ g. used_at-set s.frame f g lt)

-- For a page without a frame, a kernel flag of at most 1 and a free frame with a number of 20 bits,
-- `pa_alloc_frame` gives the page the lowest free frame, and marks this frame as used and no other.
pub alloc_frame-IsFree :
    (kernel writable : ℕ) (page : Page) (s : Frames) (spare : ℕ)
    → IsBitmap s
    → int_lt 1 kernel ≡ false
    → page.frame ≡ 0
    → spare < covered s
    → spare < 2 ^ 20
    → used_at s.frame spare ≡ false
    → (page' : Page) × (s' : Frames) × (alloc_frame kernel writable page s ≡ some (page', s'))
      × (page'.frame < covered s)
      × (used_at s.frame page'.frame ≡ false)
      × ((g : ℕ) → g < page'.frame → used_at s.frame g ≡ true)
      × ((g : ℕ) → used_at s'.frame g ≡ ((page'.frame == g) || used_at s.frame g))
unfolding alloc_frame IsFound
alloc_frame-IsFree kernel writable page s spare ok privileged empty lt bits free =
    elim (first_frame-IsFound s ok) [
      | inl (full, h) ↦ cc (h spare lt, free)
      | inr (inside, unused, lowest) ↦
          let index = first_frame s in
          let small : index < 2 ^ 20 = below_spare s index spare bits free lowest in
          let frame : index % 2 ^ 20 ≡ index = omega (arith, small) in
          let address : index * 0x1000 % 2 ^ 32 / 0x1000 ≡ index = omega (arith, small) in
          let (s', done, marks) =
            set_frame-marks (index * 0x1000 % 2 ^ 32) index s address
              (omega (arith, inside, ok.words)) in
          let none_yet : (page.frame == 0) ≡ true = ground (arith, empty) in
          let not_last : (index == 2 ^ 32 - 1) ≡ false = ground (arith, small) in
          (
            record page {
              present = 1;
              rw = if writable == 0 then 0 else 1;
              user = if kernel == 0 then 1 else 0;
              frame = index % 2 ^ 20;
            },
            s',
            rw (privileged, none_yet, not_last, done, alloc_frame) refl,
            omega (arith, frame, inside),
            ap (used_at s.frame) frame ∙ unused,
            λ g low. lowest g (omega (arith, low, frame)),
            λ g. marks g ∙ ap (λ f. (f == g) || used_at s.frame g) (sym frame),
          )
    ]
