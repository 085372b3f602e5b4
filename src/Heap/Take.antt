-- ===== src/Heap/Take.antt =====
-- kernel/malloc.c: the chain after a block has been taken.
use beryllium.Base.{ℕ, ◌+◌, ◌-◌, ◌≤◌, ◌<◌, ◌≡◌, ◌≢◌, ap, inl, inr, true, false, List, ◌∷◌, arith}
use beryllium.Heap.{Memory, write_size, write_free, write_prev, write_next, split}
use beryllium.Heap.Blocks.{Block, used, unused}
use beryllium.Heap.Chain.{meta, link, Chain, frame, chain_prev, link_place}

-- What an operation on the block at `a` leaves: a chain from there on, and the rest as it was.
pub record IsDone (m m' : Memory) (tail p a : ℕ) (bs : List Block) : Type 0 where
  pub chain : Chain m' tail p a bs
  pub before : (x : ℕ) → x < a → x ≢ tail → m' x ≡ m x
  pub closed : (m' tail).free ≡ (m tail).free

-- A block that is taken whole.
pub whole-IsDone :
    (m : Memory) (tail p a s : ℕ) (bs : List Block)
    → tail < a
    → Chain m tail p a (unused s ∷ bs)
    → IsDone m (write_free a 0 m) tail p a (used s ∷ bs)
unfolding write_free
whole-IsDone m tail p a s bs lt (here, behind) = record {
  chain = (
    ground (arith, here),
    frame tail m (write_free a 0 m) a (a + s + 16) bs (ground arith) (λ x le. ground (arith, le))
        behind,
  );
  before = λ x low out. ground (arith, low);
  closed = ground arith;
}

-- A split in front of a block that is not free, or of `tail`.
module _ (m : Memory) (tail p a s n : ℕ) (bs : List Block) (lt : tail < a) (room : n + 20 ≤ s)
    (here : m a ≡ meta s true p (link tail (a + s + 16) bs)) where
  abbrev split_memory : Memory
  split_memory = split a n (write_free a 0 m)

  -- What the split writes, if the next block is not free.
  module _ (closed : (m (link tail (a + s + 16) bs)).free ≡ 0) where
    split-block : split_memory a ≡ meta n false p (a + n + 16)
    unfolding split write_free write_size write_prev write_next
    split-block = ground (arith, here, closed, link_place tail (a + s + 16) bs)

    split-new : split_memory (a + n + 16) ≡ meta (s - n - 16) true a (link tail (a + s + 16) bs)
    unfolding split write_free write_size write_prev write_next
    split-new = ground (arith, here, closed, link_place tail (a + s + 16) bs)

    split-next :
        split_memory (link tail (a + s + 16) bs)
        ≡ record (m (link tail (a + s + 16) bs)) { prev = a + n + 16 }
    unfolding split write_free write_size write_prev write_next
    split-next = ground (arith, here, closed, link_place tail (a + s + 16) bs)

    split-other :
        (x : ℕ) → x ≢ a → x ≢ a + n + 16 → x ≢ link tail (a + s + 16) bs → split_memory x ≡ m x
    unfolding split write_free write_size write_prev write_next
    split-other x h k l = ground (arith, here, closed, h, k, l, link_place tail (a + s + 16) bs)

    split-beside :
        Chain m tail a (a + s + 16) bs
        → Chain split_memory tail p a (used n ∷ (unused (s - n - 16) ∷ bs))
    split-beside c =
        let place : a + n + 16 + (s - n - 16) + 16 ≡ a + s + 16 = omega (arith, room) in
        rw place (
          split-block,
          (
            split-new,
            chain_prev tail m split_memory a (a + n + 16) (a + s + 16) bs (omega (arith, lt))
                split-next
                (λ x out in'.
                  split-other x (ground (arith, in', lt)) (ground (arith, in', lt, room)) out)
                c,
          ),
        )

    split-closed : (split_memory tail).free ≡ (m tail).free
    split-closed = elim (link_place tail (a + s + 16) bs) [
      | inl e ↦ ap (λ r. r.free) (rw e at split-next)
      | inr e ↦
          ap (λ r. r.free)
            (split-other tail (omega (arith, lt)) (omega (arith, lt)) (omega (arith, e, lt)))
    ]

    pub split-IsDone :
        Chain m tail a (a + s + 16) bs
        → IsDone m split_memory tail p a (used n ∷ (unused (s - n - 16) ∷ bs))
    split-IsDone c = record {
      chain = split-beside c;
      before = λ x low out.
          split-other x (omega (arith, low)) (omega (arith, low))
            (ground (arith, low, out, link_place tail (a + s + 16) bs));
      closed = split-closed;
    }
