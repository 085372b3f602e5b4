-- ===== src/Pages.antt =====
-- kernel/arch/x86/memory.c: runs of pages, and `sbrk`. The number of frames is below 2^31, so that the `int`s are not
-- negative other than `block`, whose -1 is none.
pub mod Runs
pub mod Break
mod Tests
use beryllium.Base.{
  ℕ, zero, suc, ◌+◌, ◌-◌, ◌*◌, ◌/◌, ◌%◌, ◌^◌, Bool, true, false, Option, none, some, ◌>>=◌, ltb,
  ◌==◌, if◌then◌else◌,
}
use beryllium.Heap
use beryllium.Lock.{mutex_lock}
use beryllium.Frames.{Frames, test_frame, first_frame, free_frame}
use beryllium.Paging.{Paging, map_page, paging_get_page, page_at, set_page}

-- `mem_pagefree`, `mem_lastpage`, `mmac_lock`, which is a pointer, `kernel_directory` and the frames.
pub record Memory : Type 0 where
  pub mem_pagefree : ℕ
  pub mem_lastpage : ℕ
  pub mmac_lock : ℕ
  pub paging : Paging
  pub frames : Frames

-- The argument of `pa_test_frame` in the search: `INDEX_FROM_BIT(pos + j)`, whose macro has no parentheses, so that
-- only `j` is divided.
abbrev pub tested : (pos j : ℕ) → ℕ
tested pos j = pos + j / 0x20

-- The inner loop, from `j` on: the `j` at which it stops early, or none.
unfoldable pub used_from : (rounds pos j : ℕ) → Frames → Option ℕ
used_from zero pos j f = none
used_from (suc n) pos j f =
    let rest = used_from n pos (j + 1) f in
    if test_frame (tested pos j) f == 0 then rest else some j

-- The outer loop, from `i` on; the result is `block`.
unfoldable pub find_block : (fuel i pages lastpage : ℕ) → Frames → Option (Option ℕ)
find_block zero i pages lastpage f = none
find_block (suc n) i pages lastpage f = elim (ltb i f.frame_amount) [
  | false ↦ some none
  | true ↦
      let pos = (i + lastpage) % 2 ^ 32 % f.frame_amount in
      elim (ltb f.frame_amount (pos + pages)) [
        | true ↦ find_block n (i + (pages - 1)) pages lastpage f
        | false ↦ elim (used_from pages pos 0 f) [
          | none ↦ some (some pos)
          | some j ↦ find_block n (i + j + 1) pages lastpage f
        ]
      ]
]

-- The loop that allocates: the numbers of the pages are handed on as addresses.
unfoldable pub take_pages : (rounds block i : ℕ) → Paging × Frames → Option (Paging × Frames)
take_pages zero block i s = some s
take_pages (suc n) block i s = do t ← map_page (block + i) s; take_pages n block (i + 1) t

unfoldable pub take_run : (pages block : ℕ) → Memory → Option (Memory × ℕ)
take_run pages block m = do
  (p, f) ← take_pages pages block 0 (m.paging, m.frames)
  some (record m { mem_lastpage = block + pages; paging = p; frames = f }, block)

-- What follows the search: `block` is none for -1.
unfoldable pub take_found : (pages : ℕ) (block : Option ℕ) → Memory → Option (Memory × ℕ)
take_found pages none m = some (m, 0)
take_found pages (some block) m = take_run pages block m

-- With at least one page. The pointer is 0 for NULL, and the number of the first page otherwise.
unfoldable pub memory_mult_alloc_pages : (pages : ℕ) → Memory → Option (Memory × ℕ)
memory_mult_alloc_pages pages m =
    if ltb m.frames.frame_amount m.mem_pagefree then some (m, 0) else do
      found ← find_block (suc m.frames.frame_amount) 0 pages m.mem_lastpage m.frames
      take_found pages found m

-- `none` is the halt, a lock that is never let go of, or an allocation that does not return.
unfoldable pub memallocp : (rounds pages : ℕ) → Memory → Option (Memory × ℕ)
memallocp rounds zero m = some (m, 0)
memallocp rounds (suc n) m = do
  locked ← mutex_lock rounds m.mmac_lock
  (m', ptr) ← memory_mult_alloc_pages (suc n) m
  if ptr == 0 then none else some (m', ptr)

-- `actual_amount`
unfoldable pub actual_amount : (amount : ℕ) → ℕ
actual_amount amount = if amount / 0x1000 == 0 then 1 else amount / 0x1000

unfoldable pub sbrk : (rounds amount : ℕ) → Memory → Option (Memory × ℕ)
sbrk rounds amount m =
    if amount == 0 then some (m, m.mem_lastpage) else memallocp rounds (actual_amount amount) m

-- `sbrk` as `malloc` calls it; `rounds` is for the lock.
unfoldable pub heap_break : (rounds : ℕ) → Heap.Break Memory
heap_break rounds = record { current = λ m. m.mem_lastpage; extend = sbrk rounds 0x1000 }
