-- ===== src/Heap/Free.antt =====
-- kernel/malloc.c: `free`, against the list of blocks.
use mathlib.Core.List.{append_assoc}
use beryllium.Base.{
  ℕ, ◌+◌, ◌-◌, ◌≡◌, refl, sym, ap, ◌∙◌, ◌⊎◌, inl, inr, Bool, true, false, List, [], ◌∷◌, ◌++◌,
  arith, ◌==◌, if◌then◌else◌, Bool-cases,
}
use beryllium.Heap.{Meta, Heap, Break, release, free}
use beryllium.Heap.Blocks.{Block, unused, put_unused, give_back}
use beryllium.Heap.Chain.{link, last_of, last_of-lt, end_at, le-end_at, chain_behind, IsHeap}
use beryllium.Heap.Ends.{end_at-append, end_at-cons, end_at-put_unused}
use beryllium.Heap.Update.{done-IsHeap}
use beryllium.Heap.Release.{release-beside, release-merge}

last_of-snoc : (p a : ℕ) (cs : List Block) (c : Block) → last_of p a (cs ++ (c ∷ [])) ≡ end_at a cs
unfolding last_of end_at
last_of-snoc p a [] c = refl
last_of-snoc p a (b ∷ cs) c = last_of-snoc a (a + b.size + 16) cs c

link-put_unused : (tail a n : ℕ) (bs : List Block) → link tail a (put_unused n bs) ≡ a
unfolding put_unused
link-put_unused tail a n [] = refl
link-put_unused tail a n (b ∷ bs) = elim (Bool-cases b.is_free) [
  | inl e ↦ rw e refl
  | inr e ↦ simp e
]

-- The last block of some, if there is one.
snoc_cases :
    (bs : List Block) → (bs ≡ []) ⊎ ((cs : List Block) × (b : Block) × (bs ≡ cs ++ (b ∷ [])))
snoc_cases [] = inl refl
snoc_cases (b ∷ bs) = elim (snoc_cases bs) [
  | inl e ↦ inr ([], b, ap (λ cs. b ∷ cs) e)
  | inr (cs, c, e) ↦ inr (b ∷ cs, c, ap (λ ds. b ∷ ds) e)
]

give_back-merge :
    (cs : List Block) (c : Block) (s : ℕ) (behind : List Block)
    → c.is_free ≡ true
    → give_back (cs ++ (c ∷ [])) s behind ≡ cs ++ put_unused (c.size + s + 16) behind
unfolding give_back
give_back-merge [] c s behind e = rw e refl
give_back-merge (b ∷ []) c s behind e = ap (λ bs. b ∷ bs) (give_back-merge [] c s behind e)
give_back-merge (b ∷ (d ∷ cs)) c s behind e =
    ap (λ bs. b ∷ bs) (give_back-merge (d ∷ cs) c s behind e)

give_back-beside :
    (cs : List Block) (c : Block) (s : ℕ) (behind : List Block)
    → c.is_free ≡ false
    → give_back (cs ++ (c ∷ [])) s behind ≡ (cs ++ (c ∷ [])) ++ put_unused s behind
unfolding give_back
give_back-beside [] c s behind e = simp e
give_back-beside (b ∷ []) c s behind e = ap (λ bs. b ∷ bs) (give_back-beside [] c s behind e)
give_back-beside (b ∷ (d ∷ cs)) c s behind e =
    ap (λ bs. b ∷ bs) (give_back-beside (d ∷ cs) c s behind e)

module _ {B : Type 0} (k : Break B) (head tail base : ℕ) where
  free_beside :
      (h : Heap B) (before : List Block) (b : Block) (behind : List Block)
      → IsHeap k head tail base h (before ++ (b ∷ behind))
      → (h.memory (last_of head base before)).free ≡ 0
      → IsHeap k head tail base
          (record h { memory = release (end_at base before) h.memory })
          (before ++ put_unused b.size behind)
  free_beside h before b behind ok shut =
      let a = end_at base before in
      let old = b ∷ behind in
      let total = end_at-append base before old in
      let low = le-end_at base before in
      done-IsHeap k head tail base h (release a h.memory) before old (put_unused b.size behind) ok
        (sym (link-put_unused tail a b.size behind))
        (end_at-put_unused a b.size behind ∙ sym (end_at-cons a b behind))
        (release-beside h.memory tail (last_of head base before) a b behind
          (omega (arith, low, ok.tail_below)) (last_of-lt head base before ok.head_below)
          (omega (arith, total, ok.small)) ok.tail_used shut
          (chain_behind tail h.memory head base before old ok.chain))

  free_merge :
      (h : Heap B) (before : List Block) (t : ℕ) (b : Block) (behind : List Block)
      → IsHeap k head tail base h (before ++ (unused t ∷ (b ∷ behind)))
      → IsHeap k head tail base
          (record h { memory = release (end_at base before + t + 16) h.memory })
          (before ++ put_unused (t + b.size + 16) behind)
  free_merge h before t b behind ok =
      let r = end_at base before in
      let old = unused t ∷ (b ∷ behind) in
      let total = end_at-append base before old in
      let low = le-end_at base before in
      done-IsHeap k head tail base h (release (r + t + 16) h.memory) before old
        (put_unused (t + b.size + 16) behind) ok
        (sym (link-put_unused tail r (t + b.size + 16) behind))
        (end_at-put_unused r (t + b.size + 16) behind
          ∙ ap (λ x. end_at x behind) (omega arith)
          ∙ sym (end_at-cons r (unused t) (b ∷ behind) ∙ end_at-cons (r + t + 16) b behind))
        (release-merge h.memory tail (last_of head base before) r t b behind
          (omega (arith, low, ok.tail_below)) (omega (arith, total, ok.small)) ok.tail_used
          (chain_behind tail h.memory head base before old ok.chain))

  released_first :
      (h : Heap B) (b : Block) (behind : List Block)
      → IsHeap k head tail base h (b ∷ behind)
      → IsHeap k head tail base
          (record h { memory = release (end_at base []) h.memory })
          (give_back [] b.size behind)
  unfolding last_of end_at give_back
  released_first h b behind ok = free_beside h [] b behind ok ok.head_used

  released_merge :
      (h : Heap B) (cs : List Block) (c b : Block) (behind : List Block)
      → c.is_free ≡ true
      → IsHeap k head tail base h ((cs ++ (c ∷ [])) ++ (b ∷ behind))
      → IsHeap k head tail base
          (record h { memory = release (end_at base (cs ++ (c ∷ []))) h.memory })
          (give_back (cs ++ (c ∷ [])) b.size behind)
  unfolding end_at
  released_merge h cs c b behind e ok =
      let whole : c ≡ unused c.size =
        ap {A = Bool} {B = Block} (λ f. record { size = c.size; is_free = f }) e in
      let parts : (cs ++ (c ∷ [])) ++ (b ∷ behind) ≡ cs ++ (unused c.size ∷ (b ∷ behind)) =
        append_assoc cs (c ∷ []) (b ∷ behind) ∙ ap (λ d. cs ++ (d ∷ (b ∷ behind))) whole in
      rw
        (
          end_at-append base cs (c ∷ []),
          end_at-cons (end_at base cs) c [],
          give_back-merge cs c b.size behind e,
        )
        (free_merge h cs c.size b behind (rw parts at ok))

  released_beside :
      (h : Heap B) (cs : List Block) (c b : Block) (behind : List Block)
      → c.is_free ≡ false
      → IsHeap k head tail base h ((cs ++ (c ∷ [])) ++ (b ∷ behind))
      → IsHeap k head tail base
          (record h { memory = release (end_at base (cs ++ (c ∷ []))) h.memory })
          (give_back (cs ++ (c ∷ [])) b.size behind)
  released_beside h cs c b behind e ok =
      let at =
        chain_behind tail h.memory head base cs (c ∷ (b ∷ behind))
          (rw (append_assoc cs (c ∷ []) (b ∷ behind)) at ok.chain) in
      rw (give_back-beside cs c b.size behind e) (
        free_beside h (cs ++ (c ∷ [])) b behind ok (
          rw (last_of-snoc head base cs c)
            (ap (λ (r : Meta). r.free) at.0 ∙ ap (λ f. if f then 1 else 0) e)))

  released-IsHeap :
      (h : Heap B) (before : List Block) (b : Block) (behind : List Block)
      → IsHeap k head tail base h (before ++ (b ∷ behind))
      → IsHeap k head tail base
          (record h { memory = release (end_at base before) h.memory })
          (give_back before b.size behind)
  released-IsHeap h before b behind ok = elim (snoc_cases before) [
    | inl e ↦ rw e (released_first h b behind (rw e at ok))
    | inr (cs, c, e) ↦ elim (Bool-cases c.is_free) [
      | inl open' ↦ rw e (released_merge h cs c b behind open' (rw e at ok))
      | inr shut ↦ rw e (released_beside h cs c b behind shut (rw e at ok))
    ]
  ]

  -- `free` of the pointer to a block leaves the heap with that block given back: it becomes one with
  -- the free blocks before and behind it, and the others stay as they are.
  pub free-give_back :
      (h : Heap B) (before : List Block) (b : Block) (behind : List Block)
      → IsHeap k head tail base h (before ++ (b ∷ behind))
      → IsHeap k head tail base
          (record h { memory = free (end_at base before + 16) h.memory })
          (give_back before b.size behind)
  unfolding free
  free-give_back h before b behind ok =
      let kept : (end_at base before + 16 == 0) ≡ false = ground arith in
      let back : end_at base before + 16 - 16 ≡ end_at base before = omega arith in
      rw (kept, back) (released-IsHeap h before b behind ok)
