-- ===== src/Frames/Release.antt =====
-- kernel/arch/x86/page_allocator.c: which frame a release makes free, and the bitmap at the start.
use beryllium.Base.{
  ℕ, zero, suc, ◌*◌, ◌/◌, ◌%◌, ◌<◌, ◌≡◌, refl, ap, ◌∙◌, inl, inr, true, false, not, ◌&&◌, some,
  List, [], ◌∷◌, ◌++◌, arith, ltb, lt→ltb, ◌==◌, if◌then◌else◌, Bool-cases, length, replicate, drop,
  get_or,
}
use beryllium.Bits.{bit, bit-zero}
use beryllium.Frames.{Frames, Page, index_from_bit, offset_from_bit, clear_frame, free_frame, init}
use beryllium.Frames.Bitmap.{used_at}
use beryllium.Frames.Allocation.{used_at-clear}

-- `pa_free_frame` takes the number of the page's frame for an address: the frame that becomes free is
-- the one of that number divided by 4096, and every other one stays as it was.
pub free_frame_divides :
    (page : Page) (s : Frames)
    → (page.frame == 0) ≡ false
    → page.frame / 0x1000 / 32 < length s.frame
    → (s' : Frames) × (free_frame page s ≡ some (record page { frame = 0 }, s'))
      × ((g : ℕ) → used_at s'.frame g ≡ (used_at s.frame g && not (page.frame / 0x1000 == g)))
unfolding free_frame clear_frame index_from_bit offset_from_bit
free_frame_divides page s taken lt =
    rw (taken, lt→ltb _ _ lt) (_, refl, λ g. used_at-clear s.frame (page.frame / 0x1000) g lt)

zeros : (n k : ℕ) → get_or {A = ℕ} (replicate n 0 ++ []) k 0 ≡ 0
zeros zero k = refl
zeros (suc n) zero = refl
zeros (suc n) (suc k) = zeros n k

get_or-cleared :
    (n k : ℕ) (memory : List ℕ)
    → get_or (replicate n 0 ++ drop n memory) k 0 ≡ (if ltb k n then 0 else get_or memory k 0)
get_or-cleared zero k memory = ground arith
get_or-cleared (suc n) zero [] = ground arith
get_or-cleared (suc n) zero (w ∷ memory) = ground arith
get_or-cleared (suc n) (suc k) [] = ground (arith, zeros n k)
get_or-cleared (suc n) (suc k) (w ∷ memory) = ground (arith, get_or-cleared n k memory)

-- After `init_page_allocator` the frames of the first quarter of the bitmap's words are free, and each
-- of the others is used or not as the memory was before.
pub init-used_at :
    (mem_end : ℕ) (memory : List ℕ) (g : ℕ)
    → let cleared = mem_end / 0x1000 * 0x1000 / 4 / 0x20 / 4 * 32 in
      used_at (init mem_end memory).frame g ≡ (if ltb g cleared then false else used_at memory g)
unfolding init used_at index_from_bit
init-used_at mem_end memory g =
    let n = mem_end / 0x1000 * 0x1000 / 4 / 0x20 / 4 in
    let word = ap (λ w. bit w (g % 32)) (get_or-cleared n (g / 32) memory) in
    elim (Bool-cases (ltb g (n * 32))) [
      | inl low ↦
          let first : ltb (g / 32) n ≡ true = ground (arith, low) in
          rw low (word ∙ rw first (bit-zero (g % 32)))
      | inr high ↦
          let other : ltb (g / 32) n ≡ false = ground (arith, high) in
          rw high (word ∙ rw other refl)
    ]
