-- ===== src/Heap/Carve.antt =====
-- kernel/malloc.c: `malloc` from the block that it found on, against the list of blocks.
use beryllium.Base.{
  ℕ, ◌+◌, ◌-◌, ◌^◌, ◌≤◌, ◌<◌, ◌≡◌, ap, ◌∙◌, inl, inr, List, [], ◌∷◌, arith, leb, if◌then◌else◌,
  Bool-cases,
}
use beryllium.Heap.{Memory, write_free, split, take_block}
use beryllium.Heap.Blocks.{Block, used, unused, put_unused, carve}
use beryllium.Heap.Chain.{meta, link, Chain, end_at, le-end_at}
use beryllium.Heap.Take.{IsDone, whole-IsDone, split-IsDone}
use beryllium.Heap.Merge.{merge-IsDone}

-- A split, whatever lies behind the block.
split_any :
    (m : Memory) (tail p a s n : ℕ) (bs : List Block)
    → tail < a
    → n + 20 ≤ s
    → end_at a (unused s ∷ bs) < 2 ^ 32
    → (m tail).free ≡ 0
    → Chain m tail p a (unused s ∷ bs)
    → IsDone m (split a n (write_free a 0 m)) tail p a (used n ∷ put_unused (s - n - 16) bs)
unfolding put_unused end_at
split_any m tail p a s n [] lt room small closed (here, behind) =
    split-IsDone m tail p a s n [] lt room here closed behind
split_any m tail p a s n (b ∷ bs) lt room small closed (here, behind) =
    elim (Bool-cases b.is_free) [
      | inl e ↦ rw e (
          merge-IsDone m tail p a s n b.size bs lt room
            (omega (arith, small, le-end_at (a + s + 16 + b.size + 16) bs)) here
            (behind.0 ∙ ap (λ f. meta b.size f a (link tail (a + s + 16 + b.size + 16) bs)) e)
            behind.1)
      | inr e ↦ simp e (
          split-IsDone m tail p a s n (b ∷ bs) lt room here
            (ap (λ r. r.free) behind.0 ∙ ap (λ f. if f then 1 else 0) e) behind)
    ]

pub take_block-carve :
    (m : Memory) (tail p a s n : ℕ) (bs : List Block)
    → tail < a
    → n ≤ s
    → end_at a (unused s ∷ bs) < 2 ^ 32
    → (m tail).free ≡ 0
    → Chain m tail p a (unused s ∷ bs)
    → IsDone m (take_block a n m) tail p a (carve n s bs)
unfolding take_block carve
take_block-carve m tail p a s n bs lt fits small closed c =
    let size : (write_free a 0 m a).size ≡ s =
      ap (λ r. r.size) (whole-IsDone m tail p a s bs lt c).chain.0 in
    elim (Bool-cases (leb 20 (s - n))) [
      | inl e ↦ rw (size, e) (split_any m tail p a s n bs lt (ground (arith, e)) small closed c)
      | inr e ↦ rw (size, e) (whole-IsDone m tail p a s bs lt c)
    ]
