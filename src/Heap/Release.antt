-- ===== src/Heap/Release.antt =====
-- kernel/malloc.c: the chain after a block has been given back.
use beryllium.Base.{
  ℕ, ◌+◌, ◌^◌, ◌≤◌, ◌<◌, ◌≡◌, refl, ap, ◌∙◌, inl, inr, true, false, List, [], ◌∷◌, arith, ◌==◌,
  if◌then◌else◌, Bool-cases,
}
use beryllium.Heap.{Meta, Memory, write_free, combine_prev, release_next, release}
use beryllium.Heap.Blocks.{Block, unused, put_unused}
use beryllium.Heap.Chain.{meta, link, Chain, end_at, le-end_at, frame}
use beryllium.Heap.Take.{IsDone}
use beryllium.Heap.Absorb.{combine_next-IsDone, combine_prev-IsDone}

IsDone-trans :
    (m m' m'' : Memory) (tail p q r a : ℕ) (bs cs : List Block)
    → r ≤ a
    → IsDone m m' tail p a bs
    → IsDone m' m'' tail q r cs
    → IsDone m m'' tail q r cs
IsDone-trans m m' m'' tail p q r a bs cs le one two = record {
  chain = two.chain;
  before = λ x low out. two.before x low out ∙ one.before x (omega (arith, low, le)) out;
  closed = two.closed ∙ one.closed;
}

write_free-IsDone :
    (m : Memory) (tail p a : ℕ) (b : Block) (bs : List Block)
    → tail < a
    → Chain m tail p a (b ∷ bs)
    → IsDone m (write_free a 1 m) tail p a (unused b.size ∷ bs)
unfolding write_free
write_free-IsDone m tail p a b bs lt (here, behind) = record {
  chain = (
    ground (arith, here),
    frame tail m (write_free a 1 m) a (a + b.size + 16) bs (ground arith)
        (λ x le. ground (arith, le)) behind,
  );
  before = λ x low out. ground (arith, low);
  closed = ground arith;
}

IsDone-refl :
    (m : Memory) (tail p a : ℕ) (bs : List Block) → Chain m tail p a bs → IsDone m m tail p a bs
IsDone-refl m tail p a bs c = record { chain = c; before = λ x low out. refl; closed = refl }

release_next-IsDone :
    (m : Memory) (tail p a s : ℕ) (bs : List Block)
    → tail < a
    → end_at a (unused s ∷ bs) < 2 ^ 32
    → (m tail).free ≡ 0
    → Chain m tail p a (unused s ∷ bs)
    → IsDone m (release_next a m) tail p a (put_unused s bs)
unfolding release_next put_unused end_at
release_next-IsDone m tail p a s [] lt small closed c =
    let kept : ((m (m a).next).free == 0) ≡ true =
      ap (λ (r : Meta). (m r.next).free == 0) c.0 ∙ ap (λ f. f == 0) closed in
    rw kept (IsDone-refl m tail p a (unused s ∷ []) c)
release_next-IsDone m tail p a s (b ∷ bs) lt small closed c = elim (Bool-cases b.is_free) [
  | inl e ↦
      let next = c.1.0 ∙ ap (λ f. meta b.size f a (link tail (a + s + 16 + b.size + 16) bs)) e in
      let open' : ((m (m a).next).free == 0) ≡ false =
        ap (λ (r : Meta). (m r.next).free == 0) c.0 ∙ ap (λ (r : Meta). r.free == 0) next in
      rw (e, open')
        (combine_next-IsDone m tail p a s b.size bs lt
          (omega (arith, small, le-end_at (a + s + 16 + b.size + 16) bs)) c.0 next c.1.1)
  | inr e ↦
      let kept : ((m (m a).next).free == 0) ≡ true =
        ap (λ (r : Meta). (m r.next).free == 0) c.0
        ∙ ap (λ (r : Meta). r.free == 0) c.1.0
        ∙ ap (λ f. (if f then 1 else 0) == 0) e in
      simp (e, kept) (IsDone-refl m tail p a (unused s ∷ (b ∷ bs)) c)
]

front_shut :
    (m : Memory) (p a : ℕ)
    → p < a
    → (m a).prev ≡ p
    → (m p).free ≡ 0
    → ((write_free a 1 m (write_free a 1 m a).prev).free == 0) ≡ true
unfolding write_free
front_shut m p a lt e shut = ground (arith, e, shut)

front_open :
    (m : Memory) (p a : ℕ)
    → p < a
    → (m a).prev ≡ p
    → (m p).free ≡ 1
    → ((write_free a 1 m (write_free a 1 m a).prev).free == 0) ≡ false
unfolding write_free
front_open m p a lt e open' = ground (arith, e, open')

-- In front of the block is one that is not free, or `head`.
pub release-beside :
    (m : Memory) (tail p a : ℕ) (b : Block) (bs : List Block)
    → tail < a
    → p < a
    → end_at a (b ∷ bs) < 2 ^ 32
    → (m tail).free ≡ 0
    → (m p).free ≡ 0
    → Chain m tail p a (b ∷ bs)
    → IsDone m (release a m) tail p a (put_unused b.size bs)
unfolding release end_at
release-beside m tail p a b bs lt front small closed shut c =
    let freed = write_free-IsDone m tail p a b bs lt c in
    let kept : ((write_free a 1 m (write_free a 1 m a).prev).free == 0) ≡ true =
      front_shut m p a front (ap (λ r. r.prev) c.0) shut in
    rw kept (
      IsDone-trans m (write_free a 1 m) (release_next a (write_free a 1 m)) tail p p a a _ _
        (omega arith) freed
        (release_next-IsDone (write_free a 1 m) tail p a b.size bs lt small (freed.closed ∙ closed)
          freed.chain))

-- In front of the block is a free one.
pub release-merge :
    (m : Memory) (tail p r t : ℕ) (b : Block) (bs : List Block)
    → tail < r
    → end_at r (unused t ∷ (b ∷ bs)) < 2 ^ 32
    → (m tail).free ≡ 0
    → Chain m tail p r (unused t ∷ (b ∷ bs))
    → IsDone m (release (r + t + 16) m) tail p r (put_unused (t + b.size + 16) bs)
unfolding release end_at
release-merge m tail p r t b bs lt small closed c =
    let a = r + t + 16 in
    let m1 = write_free a 1 m in
    let freed = write_free-IsDone m tail r a b bs (omega (arith, lt)) c.1 in
    let opened = front_open m r a (omega arith) (ap (λ r. r.prev) c.1.0) (ap (λ r. r.free) c.0) in
    let back : (m1 a).prev ≡ r = ap (λ r. r.prev) freed.chain.0 in
    let here = freed.before r (omega arith) (omega (arith, lt)) ∙ c.0 in
    let total : end_at (r + (t + b.size + 16) + 16) bs ≡ end_at (a + b.size + 16) bs =
      ap (λ k. end_at k bs) (omega arith) in
    let merged =
      combine_prev-IsDone m1 tail p r b.size t bs lt
        (omega (arith, small, le-end_at (a + b.size + 16) bs)) here freed.chain.0 freed.chain.1 in
    let m2 = combine_prev a m1 in
    let absorbed =
      release_next-IsDone m2 tail p r (t + b.size + 16) bs lt (omega (arith, total, small))
        (merged.closed ∙ freed.closed ∙ closed) merged.chain in
    rw (opened, back)
      (IsDone-trans m m1 (release_next r m2) tail r p r a _ _ (omega arith) freed
        (IsDone-trans m1 m2 (release_next r m2) tail p p r r _ _ (omega arith) merged absorbed))
