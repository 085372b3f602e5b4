-- ===== src/Heap/Search.antt =====
-- kernel/malloc.c: `malloc` where a block fits, against the list of blocks.
use beryllium.Base.{
  ℕ, zero, suc, ◌+◌, ◌≤◌, ◌<◌, ◌≡◌, refl, sym, ap, ◌∙◌, inl, inr, true, false, not, ◌&&◌, Option,
  none, some, List, [], ◌∷◌, ◌++◌, arith, leb, ◌==◌, Bool-cases, length, ne→==,
}
use beryllium.Heap.{Memory, search}
use beryllium.Heap.Blocks.{Block, unused, put_before, first_fit}
use beryllium.Heap.Chain.{meta, link, Chain, end_at}

-- What `first_fit` finds in some blocks.
abbrev pub FitParts : (n : ℕ) → List Block → Option (List Block × ℕ × List Block) → Type 0
FitParts n bs none = Unit
FitParts n bs (some (before, s, behind)) = (bs ≡ before ++ (unused s ∷ behind)) × (n ≤ s)

parts_before :
    (n : ℕ) (b : Block) (bs : List Block) (o : Option (List Block × ℕ × List Block))
    → FitParts n bs o
    → FitParts n (b ∷ bs) (put_before b o)
unfolding put_before
parts_before n b bs none h = tt
parts_before n b bs (some (before, s, behind)) h = (ap (λ r. b ∷ r) h.0, h.1)

pub first_fit-FitParts : (n : ℕ) (bs : List Block) → FitParts n bs (first_fit n bs)
unfolding first_fit
first_fit-FitParts n [] = tt
first_fit-FitParts n (b ∷ bs) = elim (Bool-cases (b.is_free && leb n b.size)) [
  | inl e ↦
      let free : b.is_free ≡ true = ground (arith, e) in
      rw e (ap (λ f. record { size = b.size; is_free = f } ∷ bs) free, ground (arith, e))
  | inr e ↦ rw e (parts_before n b bs (first_fit n bs) (first_fit-FitParts n bs))
]

-- Where the block is that `first_fit` finds.
unfoldable pub found_at : (a : ℕ) → Option (List Block × ℕ × List Block) → Option ℕ
found_at a none = none
found_at a (some (before, s, behind)) = some (end_at a before)

found_at-put_before :
    (a : ℕ) (b : Block) (o : Option (List Block × ℕ × List Block))
    → found_at a (put_before b o) ≡ found_at (a + b.size + 16) o
unfolding found_at put_before end_at
found_at-put_before a b none = refl
found_at-put_before a b (some (before, s, behind)) = refl

-- The test of a block.
test-meta :
    (n p q : ℕ) (b : Block)
    → (not ((meta b.size b.is_free p q).free == 0) && leb n (meta b.size b.is_free p q).size)
      ≡ (b.is_free && leb n b.size)
test-meta n p q b = ground arith

pub search-first_fit :
    (head tail rounds p a n : ℕ) (m : Memory) (bs : List Block)
    → tail < a
    → length bs < rounds
    → (m p).next ≡ link tail a bs
    → Chain m tail p a bs
    → search head tail rounds p n m ≡ some (found_at a (first_fit n bs))
unfolding search first_fit found_at end_at
search-first_fit head tail zero p a n m bs lt enough e c = absurd (omega (arith, enough))
search-first_fit head tail (suc rounds) p a n m [] lt enough e c =
    let last : ((m p).next == tail) ≡ true = ground (arith, e) in rw last refl
search-first_fit head tail (suc rounds) p a n m (b ∷ bs) lt enough e c =
    let next = a + b.size + 16 in
    let not_last : (a == tail) ≡ false = ne→== a tail (omega (arith, lt)) in
    let rest =
      search-first_fit head tail rounds a next n m bs (omega (arith, lt)) (omega (arith, enough))
        (ap (λ r. r.next) c.0) c.1 in
    let test =
      ap (λ r. not (r.free == 0) && leb n r.size) c.0 ∙ test-meta n p (link tail next bs) b in
    elim (Bool-cases (b.is_free && leb n b.size)) [
      | inl fits ↦ rw (e, not_last, test, fits) refl
      | inr skip ↦
          rw (e, not_last, test, skip)
            (rest ∙ ap some (sym (found_at-put_before a b (first_fit n bs))))
    ]
