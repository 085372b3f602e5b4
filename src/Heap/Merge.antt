-- ===== src/Heap/Merge.antt =====
-- kernel/malloc.c: the chain after a split in front of a free block.
use beryllium.Base.{
  ℕ, ◌+◌, ◌-◌, ◌^◌, ◌≤◌, ◌<◌, ◌≡◌, ◌≢◌, ap, inl, inr, true, false, List, ◌∷◌, arith,
}
use beryllium.Heap.{Memory, write_size, write_free, write_prev, write_next, combine_new, split}
use beryllium.Heap.Blocks.{Block, used, unused}
use beryllium.Heap.Take.{IsDone}
use beryllium.Heap.Chain.{meta, link, Chain, chain_prev, link_place}

-- A split in front of a free block, which becomes one with what is left.
module _ (m : Memory) (tail p a s n t : ℕ) (bs : List Block) (lt : tail < a) (room : n + 20 ≤ s)
    (small : a + s + t + 32 < 2 ^ 32) (here : m a ≡ meta s true p (a + s + 16))
    (next : m (a + s + 16) ≡ meta t true a (link tail (a + s + 16 + t + 16) bs)) where
  abbrev merge_memory : Memory
  merge_memory = split a n (write_free a 0 m)

  merge-block : merge_memory a ≡ meta n false p (a + n + 16)
  unfolding split combine_new write_free write_size write_prev write_next
  merge-block = ground (arith, here, next, link_place tail (a + s + 16 + t + 16) bs)

  merge-new :
      merge_memory (a + n + 16)
      ≡ meta (s - n - 16 + t + 16) true a (link tail (a + s + 16 + t + 16) bs)
  unfolding split combine_new write_free write_size write_prev write_next
  merge-new = ground (arith, here, next, link_place tail (a + s + 16 + t + 16) bs)

  merge-next :
      merge_memory (link tail (a + s + 16 + t + 16) bs)
      ≡ record (m (link tail (a + s + 16 + t + 16) bs)) { prev = a + n + 16 }
  unfolding split combine_new write_free write_size write_prev write_next
  merge-next = ground (arith, here, next, link_place tail (a + s + 16 + t + 16) bs)

  merge-other :
      (x : ℕ)
      → x ≢ a
      → x ≢ a + n + 16
      → x ≢ a + s + 16
      → x ≢ link tail (a + s + 16 + t + 16) bs
      → merge_memory x ≡ m x
  unfolding split combine_new write_free write_size write_prev write_next
  merge-other x h k l o =
      ground (arith, here, next, h, k, l, o, link_place tail (a + s + 16 + t + 16) bs)

  split-merge :
      Chain m tail (a + s + 16) (a + s + 16 + t + 16) bs
      → Chain merge_memory tail p a (used n ∷ (unused (s - n - 16 + t + 16) ∷ bs))
  split-merge c =
      let place : a + n + 16 + (s - n - 16 + t + 16) + 16 ≡ a + s + 16 + t + 16 =
        omega (arith, room) in
      rw place (
        merge-block,
        (
          merge-new,
          chain_prev tail m merge_memory (a + s + 16) (a + n + 16) (a + s + 16 + t + 16) bs
              (omega (arith, lt)) merge-next
              (λ x out in'.
                merge-other x (ground (arith, in', lt)) (ground (arith, in', lt, room))
                  (ground (arith, in', lt)) out)
              c,
        ),
      )

  merge-closed : (merge_memory tail).free ≡ (m tail).free
  merge-closed = elim (link_place tail (a + s + 16 + t + 16) bs) [
    | inl e ↦ ap (λ r. r.free) (rw e at merge-next)
    | inr e ↦
        ap (λ r. r.free)
          (merge-other tail (omega (arith, lt)) (omega (arith, lt)) (omega (arith, lt))
            (omega (arith, e, lt)))
  ]

  pub merge-IsDone :
      Chain m tail (a + s + 16) (a + s + 16 + t + 16) bs
      → IsDone m merge_memory tail p a (used n ∷ (unused (s - n - 16 + t + 16) ∷ bs))
  merge-IsDone c = record {
    chain = split-merge c;
    before = λ x low out.
        merge-other x (omega (arith, low)) (omega (arith, low)) (omega (arith, low))
          (ground (arith, low, out, link_place tail (a + s + 16 + t + 16) bs));
    closed = merge-closed;
  }
