-- ===== src/Heap/Absorb.antt =====
-- kernel/malloc.c: a free block takes in the free one behind it, or goes into the free one before it.
use beryllium.Base.{ℕ, ◌+◌, ◌^◌, ◌<◌, ◌≡◌, ◌≢◌, ap, inl, inr, true, List, ◌∷◌, arith}
use beryllium.Heap.{
  Memory, write_size, write_free, write_prev, write_next, combine_prev, combine_next,
}
use beryllium.Heap.Blocks.{Block, unused}
use beryllium.Heap.Chain.{meta, link, Chain, chain_prev, link_place}
use beryllium.Heap.Take.{IsDone}

module _ (m : Memory) (tail p a s t : ℕ) (bs : List Block) (lt : tail < a)
    (small : a + s + t + 32 < 2 ^ 32) (here : m a ≡ meta s true p (a + s + 16))
    (next : m (a + s + 16) ≡ meta t true a (link tail (a + s + 16 + t + 16) bs)) where
  next-block : combine_next a m a ≡ meta (s + t + 16) true p (link tail (a + s + 16 + t + 16) bs)
  unfolding combine_next write_free write_size write_prev write_next
  next-block = ground (arith, here, next, link_place tail (a + s + 16 + t + 16) bs)

  next-link :
      combine_next a m (link tail (a + s + 16 + t + 16) bs)
      ≡ record (m (link tail (a + s + 16 + t + 16) bs)) { prev = a }
  unfolding combine_next write_free write_size write_prev write_next
  next-link = ground (arith, here, next, link_place tail (a + s + 16 + t + 16) bs)

  next-other : (x : ℕ) → x ≢ a → x ≢ link tail (a + s + 16 + t + 16) bs → combine_next a m x ≡ m x
  unfolding combine_next write_free write_size write_prev write_next
  next-other x h l = ground (arith, here, next, h, l, link_place tail (a + s + 16 + t + 16) bs)

  next-closed : (combine_next a m tail).free ≡ (m tail).free
  next-closed = elim (link_place tail (a + s + 16 + t + 16) bs) [
    | inl e ↦ ap (λ r. r.free) (rw e at next-link)
    | inr e ↦ ap (λ r. r.free) (next-other tail (omega (arith, lt)) (omega (arith, e, lt)))
  ]

  pub combine_next-IsDone :
      Chain m tail (a + s + 16) (a + s + 16 + t + 16) bs
      → IsDone m (combine_next a m) tail p a (unused (s + t + 16) ∷ bs)
  combine_next-IsDone c =
      let place : a + (s + t + 16) + 16 ≡ a + s + 16 + t + 16 = omega arith in
      record {
        chain = rw place (
          next-block,
          chain_prev tail m (combine_next a m) (a + s + 16) a (a + s + 16 + t + 16) bs
              (omega (arith, lt)) next-link
              (λ x out in'. next-other x (ground (arith, in', lt)) out) c,
        );
        before = λ x low out.
            next-other x (omega (arith, low))
              (ground (arith, low, out, link_place tail (a + s + 16 + t + 16) bs));
        closed = next-closed;
      }

-- The block at `a` goes into the one at `r`.
module _ (m : Memory) (tail p r s t : ℕ) (bs : List Block) (lt : tail < r)
    (small : r + s + t + 32 < 2 ^ 32) (before : m r ≡ meta t true p (r + t + 16))
    (here : m (r + t + 16) ≡ meta s true r (link tail (r + t + 16 + s + 16) bs)) where
  prev-block :
      combine_prev (r + t + 16) m r ≡ meta (t + s + 16) true p (link tail (r + t + 16 + s + 16) bs)
  unfolding combine_prev write_free write_size write_prev write_next
  prev-block = ground (arith, before, here, link_place tail (r + t + 16 + s + 16) bs)

  prev-link :
      combine_prev (r + t + 16) m (link tail (r + t + 16 + s + 16) bs)
      ≡ record (m (link tail (r + t + 16 + s + 16) bs)) { prev = r }
  unfolding combine_prev write_free write_size write_prev write_next
  prev-link = ground (arith, before, here, link_place tail (r + t + 16 + s + 16) bs)

  prev-other :
      (x : ℕ) → x ≢ r → x ≢ link tail (r + t + 16 + s + 16) bs → combine_prev (r + t + 16) m x ≡ m x
  unfolding combine_prev write_free write_size write_prev write_next
  prev-other x h l = ground (arith, before, here, h, l, link_place tail (r + t + 16 + s + 16) bs)

  prev-closed : (combine_prev (r + t + 16) m tail).free ≡ (m tail).free
  prev-closed = elim (link_place tail (r + t + 16 + s + 16) bs) [
    | inl e ↦ ap (λ r. r.free) (rw e at prev-link)
    | inr e ↦ ap (λ r. r.free) (prev-other tail (omega (arith, lt)) (omega (arith, e, lt)))
  ]

  pub combine_prev-IsDone :
      Chain m tail (r + t + 16) (r + t + 16 + s + 16) bs
      → IsDone m (combine_prev (r + t + 16) m) tail p r (unused (t + s + 16) ∷ bs)
  combine_prev-IsDone c =
      let place : r + (t + s + 16) + 16 ≡ r + t + 16 + s + 16 = omega arith in
      record {
        chain = rw place (
          prev-block,
          chain_prev tail m (combine_prev (r + t + 16) m) (r + t + 16) r (r + t + 16 + s + 16) bs
              (omega (arith, lt)) prev-link
              (λ x out in'. prev-other x (ground (arith, in', lt)) out) c,
        );
        before = λ x low out.
            prev-other x (omega (arith, low))
              (ground (arith, low, out, link_place tail (r + t + 16 + s + 16) bs));
        closed = prev-closed;
      }
