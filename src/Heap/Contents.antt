-- ===== src/Heap/Contents.antt =====
-- kernel/malloc.c: `calloc` and `realloc`, which fill and copy what blocks hold. The bytes of blocks are kept
-- apart from the `Meta`s.
use beryllium.Base.{
  ℕ, ◌+◌, ◌-◌, ◌*◌, ◌%◌, ◌^◌, ◌≤◌, ◌≡◌, ◌≢◌, refl, ◌⊎◌, not, ◌&&◌, arith, ltb, ◌==◌, if◌then◌else◌,
  Option, none, some, ne→==,
}
use beryllium.Bytes.{memcpy, memset}
use beryllium.Bytes.Copies.{is_within, copied, memcpy-copied}
use beryllium.Bytes.Fill.{memset-is_within}
use beryllium.Heap.{Heap, Break, sizeof_meta, malloc, free}

pub record Store (B : Type 0) : Type 0 where
  pub heap : Heap B
  pub bytes : ℕ → ℕ

-- The size that is copied to the new block.
unfoldable pub smaller : (size old : ℕ) → ℕ
smaller size old = if ltb size old then size else old

smaller-le : (size old : ℕ) → smaller size old ≤ old
unfolding smaller
smaller-le size old = ground arith

module _ {B : Type 0} (k : Break B) (head tail : ℕ) where
  unfoldable pub calloc : (rounds num_of_elts elt_size : ℕ) → Store B → Option (Store B × ℕ)
  calloc rounds num_of_elts elt_size s =
      let size = num_of_elts * elt_size % 2 ^ 32 in
      elim (malloc k head tail rounds size s.heap) [
        | none ↦ none
        | some (h, ptr) ↦ some (
          record { heap = h; bytes = if ptr == 0 then s.bytes else memset ptr 0 size s.bytes },
          ptr,
        )
      ]

  -- `free(pointer)`
  unfoldable pub freed : (pointer : ℕ) → Heap B → Heap B
  freed pointer h = record h { memory = free pointer h.memory }

  unfoldable pub realloc : (rounds pointer size : ℕ) → Store B → Option (Store B × ℕ)
  realloc rounds pointer size s = elim (malloc k head tail rounds size s.heap) [
    | none ↦ none
    | some (h, new_block) ↦
        let h1 = if not (pointer == 0) && (size == 0) then freed pointer h else h in
        some (
          if not (pointer == 0) && not (new_block == 0)
          then (
            record {
              heap = freed pointer h1;
              bytes =
                  memcpy new_block pointer (smaller size (h1.memory (pointer - sizeof_meta)).size)
                    s.bytes;
            },
            new_block,
          )
          else (record { heap = h1; bytes = s.bytes }, new_block))
  ]

  -- `realloc` of a block to another size than 0, when `malloc` gives a block for it: the bytes that both
  -- have room for are in the new block, where the two do not overlap, the other bytes are as they were,
  -- and the old block is freed, once.
  pub realloc-copied :
      (rounds pointer size new_block : ℕ) (s : Store B) (h : Heap B)
      → pointer ≢ 0
      → size ≢ 0
      → new_block ≢ 0
      → malloc k head tail rounds size s.heap ≡ some (h, new_block)
      → ((new_block ≤ pointer) ⊎ (pointer + (h.memory (pointer - 16)).size ≤ new_block))
      → (s' : Store B) × (realloc rounds pointer size s ≡ some (s', new_block))
        × (s'.heap ≡ record h { memory = free pointer h.memory })
        × ((a : ℕ)
            → s'.bytes a
              ≡ copied new_block pointer (smaller size (h.memory (pointer - 16)).size) s.bytes a)
  unfolding realloc freed
  realloc-copied rounds pointer size new_block s h there larger got run apart =
      let e1 = ne→== pointer 0 there in
      let e2 = ne→== size 0 larger in
      let e3 = ne→== new_block 0 got in
      let less : smaller size (h.memory (pointer - 16)).size ≤ (h.memory (pointer - 16)).size =
        smaller-le size (h.memory (pointer - 16)).size in
      (
        record {
          heap = record h { memory = free pointer h.memory };
          bytes = memcpy new_block pointer (smaller size (h.memory (pointer - 16)).size) s.bytes;
        },
        rw (run, e1, e2, e3, realloc) refl,
        refl,
        λ a.
            memcpy-copied new_block pointer (smaller size (h.memory (pointer - 16)).size) s.bytes a
              (ground (arith, apart, less)),
      )

  -- When `malloc` gives a block of the product of the two sizes, reduced to 32 bits, `calloc` returns it
  -- with each byte of that size 0, and every other byte is as it was.
  pub calloc-zeroed :
      (rounds num_of_elts elt_size ptr : ℕ) (s : Store B) (h : Heap B)
      → ptr ≢ 0
      → malloc k head tail rounds (num_of_elts * elt_size % 2 ^ 32) s.heap ≡ some (h, ptr)
      → (s' : Store B) × (calloc rounds num_of_elts elt_size s ≡ some (s', ptr))
        × (s'.heap ≡ h)
        × ((a : ℕ)
            → s'.bytes a
              ≡ (if is_within ptr (num_of_elts * elt_size % 2 ^ 32) a then 0 else s.bytes a))
  unfolding calloc
  calloc-zeroed rounds num_of_elts elt_size ptr s h got run =
      let e = ne→== ptr 0 got in
      let size = num_of_elts * elt_size % 2 ^ 32 in
      (
        record { heap = h; bytes = memset ptr 0 size s.bytes },
        rw (run, e, calloc) refl,
        refl,
        λ a. memset-is_within ptr 0 size s.bytes a (omega arith),
      )
