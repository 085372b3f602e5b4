-- ===== src/Heap/Chain.antt =====
-- kernel/malloc.c: what it means that the memory holds the list of some blocks.
use beryllium.Base.{
  ℕ, suc, ◌+◌, ◌≤◌, ◌^◌, ◌<◌, ◌≡◌, ◌≢◌, refl, ap, ◌∙◌, ◌⊎◌, inl, inr, Bool, List, [], ◌∷◌, ◌++◌,
  arith, if◌then◌else◌,
}
use beryllium.Heap.{Meta, Memory, Heap, Break, end_of}
use beryllium.Heap.Blocks.{Block}

abbrev pub meta : (size : ℕ) → (is_free : Bool) → (prev next : ℕ) → Meta
meta s f p n = record { size = s; free = if f then 1 else 0; prev = p; next = n }

-- The address of the first of some blocks at `a`, or of `tail` if there is none.
abbrev pub link : (tail a : ℕ) → List Block → ℕ
link tail a [] = tail
link tail a (b ∷ bs) = a

-- The `Meta`s of blocks that lie from `a` on, with `p` in front of them and `tail` behind.
abbrev pub Chain : (m : Memory) (tail p a : ℕ) → List Block → Type 0
Chain m tail p a [] = (m tail).prev ≡ p
Chain m tail p a (b ∷ bs) =
    (m a ≡ meta b.size b.is_free p (link tail (a + b.size + 16) bs))
    × Chain m tail a (a + b.size + 16) bs

-- The last block of some at `a`, or what is in front of them.
unfoldable pub last_of : (p a : ℕ) → List Block → ℕ
last_of p a [] = p
last_of p a (b ∷ bs) = last_of a (a + b.size + 16) bs

-- Where some blocks at `a` end.
unfoldable pub end_at : (a : ℕ) → List Block → ℕ
end_at a [] = a
end_at a (b ∷ bs) = end_at (a + b.size + 16) bs

pub le-end_at : (a : ℕ) (bs : List Block) → a ≤ end_at a bs
unfolding end_at
le-end_at a [] = omega arith
le-end_at a (b ∷ bs) = omega (arith, le-end_at (a + b.size + 16) bs)

pub last_of-lt : (p a : ℕ) (bs : List Block) → p < a → last_of p a bs < end_at a bs
unfolding last_of end_at
last_of-lt p a [] lt = lt
last_of-lt p a (b ∷ bs) lt = last_of-lt a (a + b.size + 16) bs (omega arith)

module _ (tail : ℕ) where
  pub link-append :
      (a : ℕ) (xs ys zs : List Block)
      → link tail (end_at a xs) ys ≡ link tail (end_at a xs) zs
      → link tail a (xs ++ ys) ≡ link tail a (xs ++ zs)
  unfolding end_at
  link-append a [] ys zs e = e
  link-append a (b ∷ xs) ys zs e = refl

  -- A chain is kept by writes in front of its blocks, other than to `tail`.
  pub frame :
      (m m' : Memory) (p a : ℕ) (bs : List Block)
      → (m' tail).prev ≡ (m tail).prev
      → ((x : ℕ) → a ≤ x → m' x ≡ m x)
      → Chain m tail p a bs
      → Chain m' tail p a bs
  frame m m' p a [] t h c = t ∙ c
  frame m m' p a (b ∷ bs) t h c = (
    h a (omega arith) ∙ c.0,
    frame m m' a (a + b.size + 16) bs t (λ x le. h x (omega (arith, le))) c.1,
  )

  pub chain_behind :
      (m : Memory) (p a : ℕ) (xs ys : List Block)
      → Chain m tail p a (xs ++ ys)
      → Chain m tail (last_of p a xs) (end_at a xs) ys
  unfolding last_of end_at
  chain_behind m p a [] ys c = c
  chain_behind m p a (b ∷ xs) ys c = chain_behind m a (a + b.size + 16) xs ys c.1

  -- The blocks behind `xs` are replaced.
  pub chain_replace :
      (m m' : Memory) (p a : ℕ) (xs ys zs : List Block)
      → link tail (end_at a xs) ys ≡ link tail (end_at a xs) zs
      → ((x : ℕ) → a ≤ x → x < end_at a xs → m' x ≡ m x)
      → Chain m tail p a (xs ++ ys)
      → Chain m' tail (last_of p a xs) (end_at a xs) zs
      → Chain m' tail p a (xs ++ zs)
  unfolding last_of end_at
  chain_replace m m' p a [] ys zs e h c d = d
  chain_replace m m' p a (b ∷ xs) ys zs e h c d =
      let next = a + b.size + 16 in
      let inside : suc a ≤ end_at next xs = omega (arith, le-end_at next xs) in
      (
        h a (omega arith) inside ∙ c.0 ∙ ap (meta b.size b.is_free p) (link-append next xs ys zs e),
        chain_replace m m' a next xs ys zs e (λ x le lt. h x (omega (arith, le)) lt) c.1 d,
      )

  -- The first block of a chain, or `tail`, gets another block in front of it.
  pub chain_prev :
      (m m' : Memory) (p p' a : ℕ) (bs : List Block)
      → tail < a
      → m' (link tail a bs) ≡ record (m (link tail a bs)) { prev = p' }
      → ((x : ℕ) → x ≢ link tail a bs → ((a ≤ x) ⊎ (x ≡ tail)) → m' x ≡ m x)
      → Chain m tail p a bs
      → Chain m' tail p' a bs
  chain_prev m m' p p' a [] lt e h c = ap (λ r. r.prev) e
  chain_prev m m' p p' a (b ∷ bs) lt e h c = (
    e ∙ ap {A = Meta} (λ r. record r { prev = p' }) c.0,
    frame m m' a (a + b.size + 16) bs (ap (λ r. r.prev) (h tail (omega (arith, lt)) (inr refl)))
        (λ x le. h x (omega (arith, le)) (inl (omega (arith, le)))) c.1,
  )

  pub link_place : (a : ℕ) (bs : List Block) → (link tail a bs ≡ tail) ⊎ (link tail a bs ≡ a)
  link_place a [] = inl refl
  link_place a (b ∷ bs) = inr refl

-- The memory of `h` holds the blocks `bs` from `base` on.
pub record IsHeap {B : Type 0} (k : Break B) (head tail base : ℕ) (h : Heap B) (bs : List Block)
    : Type 0 where
  pub apart : head ≢ tail
  pub head_below : head < base
  pub tail_below : tail < base
  pub first : (h.memory head).next ≡ link tail base bs
  pub head_used : (h.memory head).free ≡ 0
  pub tail_used : (h.memory tail).free ≡ 0
  pub chain : Chain h.memory tail head base bs
  pub ends : end_at base bs ≡ end_of k h
  pub small : end_at base bs < 2 ^ 32
