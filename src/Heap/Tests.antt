-- ===== src/Heap/Tests.antt =====
-- kernel/malloc.c: runs on a heap with a free, a used and a free block.
use beryllium.Base.{
  ℕ, ◌+◌, ◌≡◌, refl, true, false, List, [], ◌∷◌, ◌++◌, arith, ◌==◌, if◌then◌else◌, some,
}
use beryllium.Heap.{Memory, Heap, Break, search, malloc, free, take_block, round_up, end_of}
use beryllium.Heap.Blocks.{Block, used, unused, put_unused, put_before, carve, give_back, first_fit}
use beryllium.Heap.Chain.{meta, end_at, IsHeap}
use beryllium.Heap.Found.{malloc-first_fit}
use beryllium.Heap.Free.{free-give_back}
use beryllium.Heap.Calls.{Enlarges, more, fits}
use beryllium.Heap.Extend.{IsGrown, malloc-no_fit}

-- A break that is a number of pages and moves up by one, as that of x86 does.
abbrev pages : Break ℕ
pages = record { current = λ b. b; extend = λ b. some (b + 1, b) }

abbrev memory : Memory
memory a =
    if a == 64
    then meta 100 true 16 180
    else if a == 180
    then meta 40 false 64 236
    else if a == 236
    then meta 60 true 180 32
    else if a == 16
    then meta 0 false 0 64
    else meta 0 false 236 0

abbrev heap : Heap ℕ
heap = record { memory = memory; alloc_end = 312; brk = 526 }

abbrev blocks : List Block
blocks = unused 100 ∷ (used 40 ∷ (unused 60 ∷ []))

heap-IsHeap : IsHeap pages 16 32 64 heap blocks
unfolding end_at end_of
heap-IsHeap = record {
  apart = omega arith;
  head_below = omega arith;
  tail_below = omega arith;
  first = refl;
  head_used = refl;
  tail_used = refl;
  chain = (refl, (refl, (refl, refl)));
  ends = refl;
  small = omega arith;
}

malloc-first_fit_example :
    (h : Heap ℕ) × (malloc pages 16 32 4 50 heap ≡ some (h, end_at 64 [] + 16))
    × IsHeap pages 16 32 64 h ([] ++ carve (round_up 50) 100 (used 40 ∷ (unused 60 ∷ [])))
unfolding first_fit round_up
malloc-first_fit_example =
    malloc-first_fit pages 16 32 64 4 50 heap blocks [] 100 (used 40 ∷ (unused 60 ∷ [])) heap-IsHeap
      (omega arith) refl

free-give_back_example :
    IsHeap pages 16 32 64
      (record heap { memory = free (end_at 64 (unused 100 ∷ []) + 16) memory })
      (give_back (unused 100 ∷ []) 40 (unused 60 ∷ []))
free-give_back_example =
    free-give_back pages 16 32 64 heap (unused 100 ∷ []) (used 40) (unused 60 ∷ []) heap-IsHeap

one_block : give_back (unused 100 ∷ []) 40 (unused 60 ∷ []) ≡ unused 232 ∷ []
unfolding give_back put_unused
one_block = refl

two_calls : Enlarges pages 216 312 2 526 528 true
two_calls =
    more 526 527 526 (omega arith) refl (omega arith)
      (more 527 528 527 (omega arith) refl (omega arith) (fits 528 (omega arith)))

malloc-no_fit_example :
    (h : Heap ℕ) × (ptr : ℕ) × (malloc pages 16 32 5 200 heap ≡ some (h, ptr))
    × (h.brk ≡ 528)
    × IsGrown pages 16 32 64 (round_up 200) blocks true h ptr
unfolding first_fit put_before round_up end_at
malloc-no_fit_example =
    malloc-no_fit pages 16 32 64 5 2 200 heap blocks 528 true heap-IsHeap (omega arith)
      (omega arith) (omega arith) refl two_calls

found : malloc pages 16 32 4 50 heap ≡ some (record heap { memory = take_block 64 52 memory }, 80)
unfolding malloc search round_up
found = refl
