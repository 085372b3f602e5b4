-- ===== src/Heap.antt =====
-- kernel/malloc.c: the doubly linked list of blocks, first fit, splitting and combining. A block is the
-- address of its `Meta`, whose fields the memory holds. Blocks do not go round the end of the address
-- space, so that addresses within them are not reduced.
pub mod Blocks
pub mod Chain
pub mod Take
pub mod Merge
pub mod Carve
pub mod Search
pub mod Ends
pub mod Update
pub mod Found
pub mod Absorb
pub mod Release
pub mod Free
pub mod Calls
pub mod Extend
pub mod Contents
mod Tests
use beryllium.Base.{
  ℕ, zero, suc, ◌+◌, ◌-◌, ◌%◌, ◌^◌, Bool, true, false, not, ◌&&◌, Option, none, some, leb, ltb,
  ◌==◌, if◌then◌else◌,
}

-- `Meta`. `free` is a `char`.
pub record Meta : Type 0 where
  pub size : ℕ
  pub free : ℕ
  pub prev : ℕ
  pub next : ℕ

abbrev pub Memory : Type 0
Memory = ℕ → Meta

-- `sizeof(Meta)` where pointers and `size_t` have 4 bytes, and `sizeof(size_t)`.
abbrev pub sizeof_meta : ℕ
sizeof_meta = 16

abbrev pub sizeof_size : ℕ
sizeof_size = 4

-- `block->size = v` and the like.
unfoldable pub write_size : (block v : ℕ) → Memory → Memory
write_size block v m a = if a == block then record (m a) { size = v } else m a

unfoldable pub write_free : (block v : ℕ) → Memory → Memory
write_free block v m a = if a == block then record (m a) { free = v } else m a

unfoldable pub write_prev : (block v : ℕ) → Memory → Memory
write_prev block v m a = if a == block then record (m a) { prev = v } else m a

unfoldable pub write_next : (block v : ℕ) → Memory → Memory
write_next block v m a = if a == block then record (m a) { next = v } else m a

-- `size`, rounded up to whole words.
unfoldable pub round_up : ℕ → ℕ
round_up size =
    if size % sizeof_size == 0 then size else (size + (sizeof_size - size % sizeof_size)) % 2 ^ 32

-- The combination of the new block with the next one.
unfoldable pub combine_new : (block : ℕ) → Memory → Memory
combine_new block m =
    let next = (m block).next in
    let m1 = write_size block (((m block).size + ((m next).size + sizeof_meta)) % 2 ^ 32) m in
    let m2 = write_prev (m1 next).next block m1 in write_next block (m2 next).next m2

-- The part of a block that is split off.
unfoldable pub split : (block size : ℕ) → Memory → Memory
split block size m =
    let new = block + size + sizeof_meta in
    let m1 = write_size new ((m block).size - size - sizeof_meta) m in
    let m2 = write_size block ((m1 block).size - ((m1 new).size + sizeof_meta)) m1 in
    let m3 = write_prev (m2 block).next new m2 in
    let m4 = write_prev new block m3 in
    let m5 = write_next new (m4 block).next m4 in
    let m6 = write_next block new m5 in
    let m7 = write_free new 1 m6 in if (m7 (m7 new).next).free == 0 then m7 else combine_new new m7

-- What happens to the block that is found.
unfoldable pub take_block : (block size : ℕ) → Memory → Memory
take_block block size m =
    let m1 = write_free block 0 m in
    if leb (sizeof_size + sizeof_meta) ((m1 block).size - size) then split block size m1 else m1

-- `free` of a pointer that is not NULL, from its block on.
unfoldable pub combine_prev : (block : ℕ) → Memory → Memory
combine_prev block m =
    let prev = (m block).prev in
    let m1 = write_prev (m block).next prev m in
    let m2 = write_next prev (m1 block).next m1 in
    write_size prev (((m2 prev).size + ((m2 block).size + sizeof_meta)) % 2 ^ 32) m2

unfoldable pub combine_next : (block : ℕ) → Memory → Memory
combine_next block m =
    let next = (m block).next in
    let m1 = write_prev (m next).next block m in
    let m2 = write_size block (((m1 block).size + ((m1 next).size + sizeof_meta)) % 2 ^ 32) m1 in
    write_next block (m2 next).next m2

unfoldable pub release_next : (block : ℕ) → Memory → Memory
release_next block m = if (m (m block).next).free == 0 then m else combine_next block m

unfoldable pub release : (block : ℕ) → Memory → Memory
release block m =
    let m1 = write_free block 1 m in
    if (m1 (m1 block).prev).free == 0
    then release_next block m1
    else release_next (m1 block).prev (combine_prev block m1)

unfoldable pub free : (ptr : ℕ) → Memory → Memory
free ptr m = if ptr == 0 then m else release (ptr - sizeof_meta) m

-- The static nodes `head` and `tail`, at addresses that the linker chooses.
module _ (head tail : ℕ) where
  -- The search from `block` on: `some none` if no block fits, `none` if the rounds have run out.
  unfoldable pub search : (rounds block size : ℕ) → Memory → Option (Option ℕ)
  search zero block size m = none
  search (suc n) block size m =
      let next = (m block).next in
      let rest = search n next size m in
      if next == tail
      then some none
      else if not ((m next).free == 0) && leb size (m next).size
      then some (some next)
      else rest

  -- The new block at the end.
  unfoldable pub append : (alloc_end size : ℕ) → Memory → Memory
  append alloc_end size m =
      let m1 = write_next alloc_end tail m in
      let m2 = write_prev alloc_end (m1 tail).prev m1 in
      let m3 = write_next (m2 alloc_end).prev alloc_end m2 in
      let m4 = write_prev tail alloc_end m3 in
      let m5 = write_free alloc_end 0 m4 in write_size alloc_end size m5

-- The calls `sbrk(0)` and `sbrk(PAGE_SIZE)`, each with the pointer that it returns. Each port has an `sbrk` of its own
-- (kernel/arch), and that of x86, which is modelled in Pages, counts pages where `malloc` counts bytes. So it is a
-- parameter, and nothing is assumed of it: `malloc` is modelled with whatever the calls do. A halt is none.
pub record Break (B : Type 0) : Type 0 where
  pub current : B → ℕ
  pub extend : B → Option (B × ℕ)

pub record Heap (B : Type 0) : Type 0 where
  pub memory : Memory
  pub alloc_end : ℕ
  pub brk : B

module _ {B : Type 0} (k : Break B) where
  -- The loop that enlarges the heap, and whether it got enough.
  unfoldable pub enlarge : (rounds need alloc_end : ℕ) → B → Option (B × Bool)
  enlarge zero need alloc_end b = none
  enlarge (suc n) need alloc_end b =
      let more = elim (k.extend b) as (λ _. Option (B × Bool)) [
        | none ↦ none
        | some (b', ptr) ↦
            let rest = enlarge n need alloc_end b' in
            if ptr == 2 ^ 32 - 1 then some (b', false) else rest
      ] in
      if ltb ((k.current b + 2 ^ 32 - alloc_end) % 2 ^ 32) need then more else some (b, true)

  -- Where the next new block goes.
  unfoldable pub end_of : Heap B → ℕ
  end_of h = if h.alloc_end == 0 then k.current h.brk else h.alloc_end

  module _ (head tail : ℕ) where
    -- `malloc` where no block fits.
    unfoldable pub malloc_new : (rounds size : ℕ) → Heap B → Option (Heap B × ℕ)
    malloc_new rounds size h =
        let at = end_of h in
        let need = (size + sizeof_meta) % 2 ^ 32 in
        elim (enlarge rounds need at h.brk) [
          | none ↦ none
          | some (b, enough) ↦ some (
              if enough
              then (
                record {
                  memory = append head tail at size h.memory;
                  alloc_end = (at + (size + sizeof_meta)) % 2 ^ 32;
                  brk = b;
                },
                at + sizeof_meta,
              )
              else (record h { alloc_end = at; brk = b }, 0))
        ]

    -- `none` means that the rounds have run out.
    unfoldable pub malloc : (rounds size : ℕ) → Heap B → Option (Heap B × ℕ)
    malloc rounds size h =
        let n = round_up size in
        elim (search head tail rounds head n h.memory) [
          | none ↦ none
          | some found ↦ elim found [
            | some block ↦
                some (record h { memory = take_block block n h.memory }, block + sizeof_meta)
            | none ↦ malloc_new rounds n h
          ]
        ]
