-- ===== src/Frames/Tests.antt =====
-- kernel/arch/x86/page_allocator.c: the properties at a small bitmap.
use beryllium.Base.{ℕ, ◌≡◌, ◌<◌, refl, true, false, ◌||◌, some, [], ◌∷◌, arith, ◌==◌}
use beryllium.Bits.{bit}
use beryllium.Frames.{Frames, Page, index_from_bit, first_bit, first_from, first_frame, alloc_frame}
use beryllium.Frames.Bitmap.{used_at}
use beryllium.Frames.Allocation.{IsBitmap, covered, alloc_frame-IsFree}

-- Two words: the frames below 35 are used.
abbrev some_used : Frames
some_used = record { frame = 0xFFFFFFFF ∷ (7 ∷ []); frame_amount = 64 }

abbrev fresh : Page
fresh = record { present = 0; rw = 0; user = 0; accessed = 0; dirty = 0; unused = 0; frame = 0 }

abbrev mapped : Page
mapped = record { present = 1; rw = 1; user = 0; accessed = 0; dirty = 0; unused = 0; frame = 33 }

first_is_35 : first_frame some_used ≡ 35
unfolding first_frame first_from first_bit index_from_bit
first_is_35 = refl

some_used-IsBitmap : IsBitmap some_used
some_used-IsBitmap = record { words = omega arith; numbers = omega arith }

alloc_frame-IsFree_example :
    (page' : Page) × (s' : Frames) × (alloc_frame 1 1 fresh some_used ≡ some (page', s'))
    × (page'.frame < covered some_used)
    × (used_at some_used.frame page'.frame ≡ false)
    × ((g : ℕ) → g < page'.frame → used_at some_used.frame g ≡ true)
    × ((g : ℕ) → used_at s'.frame g ≡ ((page'.frame == g) || used_at some_used.frame g))
unfolding used_at bit
alloc_frame-IsFree_example =
    alloc_frame-IsFree 1 1 fresh some_used 40 some_used-IsBitmap refl refl (omega arith)
      (omega arith) refl
