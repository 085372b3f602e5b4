-- ===== src/Pages/Tests.antt =====
-- kernel/arch/x86/memory.c: a call of `sbrk`.
use beryllium.Base.{ℕ, ◌+◌, ◌≡◌, ◌≢◌, refl, true, none, some, [], ◌∷◌, arith, ◌==◌, if◌then◌else◌}
use beryllium.Heap.{enlarge}
use beryllium.Lock.{mutex_lock}
use beryllium.Frames.{
  Frames, test_frame, alloc_frame, set_frame, first_frame, first_from, first_bit, index_from_bit,
  offset_from_bit,
}
use beryllium.Paging.{Paging, zero_page, paging_get_page, page_at, map_page, set_page, set_entry}
use beryllium.Pages.{
  Memory, used_from, find_block, take_pages, take_run, take_found, memory_mult_alloc_pages,
  memallocp, actual_amount, sbrk, heap_break,
}
use beryllium.Pages.Break.{IsTaken, sbrk-IsTaken}

-- 32 frames, all free, and one table.
abbrev frames : Frames
frames = record { frame = 0 ∷ []; frame_amount = 32 }

abbrev paging : Paging
paging = record {
  dir = record {
    tables = λ i. if i == 0 then some (λ j. zero_page) else none;
    tables_physical = λ i. 0;
  };
  placement_address = 0x100010;
}

abbrev memory : Memory
memory = record {
  mem_pagefree = 16;
  mem_lastpage = 1;
  mmac_lock = 0;
  paging = paging;
  frames = frames;
}

abbrev after : Memory
after = record {
  mem_pagefree = 16;
  mem_lastpage = 2;
  mmac_lock = 0;
  paging = set_page (0, 0) (record zero_page { present = 1; user = 1 }) paging;
  frames = record { frame = 1 ∷ []; frame_amount = 32 };
}

called : sbrk 5 100 memory ≡ some (after, 1)
unfolding mutex_lock sbrk actual_amount memallocp memory_mult_alloc_pages take_found take_run
    take_pages find_block used_from test_frame map_page paging_get_page page_at set_page set_entry
    alloc_frame set_frame first_frame first_from first_bit index_from_bit offset_from_bit
called = refl

-- The loop of `malloc` that enlarges the heap, with this `sbrk`: one call moves the break by one.
enlarged : enlarge (heap_break 5) 2 1 1 memory ≡ some (after, true)
unfolding heap_break enlarge mutex_lock sbrk actual_amount memallocp memory_mult_alloc_pages
    take_found take_run take_pages find_block used_from test_frame map_page paging_get_page page_at
    set_page set_entry alloc_frame set_frame first_frame first_from first_bit index_from_bit
    offset_from_bit
enlarged = refl

sbrk-IsTaken_example :
    (◌≢◌ {A = ℕ} 1 0)
    × IsTaken (actual_amount 100) memory after 1
    × (sbrk 5 0 after ≡ some (after, 1 + actual_amount 100))
sbrk-IsTaken_example = sbrk-IsTaken 5 100 memory after 1 (omega arith) called
