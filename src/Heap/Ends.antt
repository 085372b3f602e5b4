-- ===== src/Heap/Ends.antt =====
-- kernel/malloc.c: where the blocks end after one is taken.
use beryllium.Base.{
  ℕ, ◌+◌, ◌-◌, ◌≤◌, ◌≡◌, refl, ap, ◌∙◌, inl, inr, List, [], ◌∷◌, ◌++◌, arith, leb, Bool-cases,
}
use beryllium.Heap.Blocks.{Block, put_unused, carve}
use beryllium.Heap.Chain.{link, end_at}

pub end_at-append : (a : ℕ) (xs ys : List Block) → end_at a (xs ++ ys) ≡ end_at (end_at a xs) ys
unfolding end_at
end_at-append a [] ys = refl
end_at-append a (b ∷ xs) ys = end_at-append (a + b.size + 16) xs ys

pub end_at-put_unused :
    (a n : ℕ) (bs : List Block) → end_at a (put_unused n bs) ≡ end_at (a + n + 16) bs
unfolding end_at put_unused
end_at-put_unused a n [] = refl
end_at-put_unused a n (b ∷ bs) = elim (Bool-cases b.is_free) [
  | inl e ↦ rw e (ap (λ k. end_at k bs) (omega arith))
  | inr e ↦ simp e
]

pub end_at-carve :
    (a n s : ℕ) (bs : List Block) → n ≤ s → end_at a (carve n s bs) ≡ end_at (a + s + 16) bs
unfolding carve end_at
end_at-carve a n s bs h = elim (Bool-cases (leb 20 (s - n))) [
  | inl e ↦
      rw e
        (end_at-put_unused (a + n + 16) (s - n - 16) bs ∙ ap (λ k. end_at k bs) (ground (arith, e)))
  | inr e ↦ rw e refl
]

pub link-carve : (tail a n s : ℕ) (bs : List Block) → link tail a (carve n s bs) ≡ a
unfolding carve
link-carve tail a n s bs = elim (Bool-cases (leb 20 (s - n))) [
  | inl e ↦ rw e refl
  | inr e ↦ rw e refl
]

pub end_at-cons :
    (a : ℕ) (b : Block) (bs : List Block) → end_at a (b ∷ bs) ≡ end_at (a + b.size + 16) bs
unfolding end_at
end_at-cons a b bs = refl
