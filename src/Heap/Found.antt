-- ===== src/Heap/Found.antt =====
-- kernel/malloc.c: `malloc` where a block fits, against the list of blocks.
use beryllium.Base.{ℕ, ◌+◌, ◌≤◌, ◌<◌, ◌≡◌, refl, sym, ◌∙◌, some, List, ◌∷◌, ◌++◌, arith, length}
use beryllium.Heap.{Heap, Break, take_block, round_up, malloc}
use beryllium.Heap.Blocks.{Block, unused, carve, first_fit}
use beryllium.Heap.Chain.{last_of, end_at, le-end_at, chain_behind}
use beryllium.Heap.Carve.{take_block-carve}
use beryllium.Heap.Chain.{IsHeap}
use beryllium.Heap.Update.{done-IsHeap}
use beryllium.Heap.Search.{first_fit-FitParts, search-first_fit, found_at}
use beryllium.Heap.Ends.{end_at-append, end_at-carve, link-carve, end_at-cons}

module _ {B : Type 0} (k : Break B) (head tail base : ℕ) where
  taken-IsHeap :
      (h : Heap B) (n s : ℕ) (before behind : List Block)
      → IsHeap k head tail base h (before ++ (unused s ∷ behind))
      → n ≤ s
      → IsHeap k head tail base
          (record h { memory = take_block (end_at base before) n h.memory })
          (before ++ carve n s behind)
  taken-IsHeap h n s before behind ok fits =
      let a = end_at base before in
      let old = unused s ∷ behind in
      let total = end_at-append base before old in
      let low = le-end_at base before in
      done-IsHeap k head tail base h (take_block a n h.memory) before old (carve n s behind) ok
        (sym (link-carve tail a n s behind))
        (end_at-carve a n s behind fits ∙ sym (end_at-cons a (unused s) behind))
        (take_block-carve h.memory tail (last_of head base before) a s n behind
          (omega (arith, low, ok.tail_below)) fits (omega (arith, total, ok.small)) ok.tail_used
          (chain_behind tail h.memory head base before old ok.chain))

  -- If a block of the heap fits, `malloc` returns within as many rounds as there are blocks and one,
  -- with the first such block, and leaves the heap with the blocks as `carve` has them.
  pub malloc-first_fit :
      (rounds size : ℕ) (h : Heap B) (bs before : List Block) (s : ℕ) (behind : List Block)
      → IsHeap k head tail base h bs
      → length bs < rounds
      → first_fit (round_up size) bs ≡ some (before, s, behind)
      → (h' : Heap B) × (malloc k head tail rounds size h ≡ some (h', end_at base before + 16))
        × IsHeap k head tail base h' (before ++ carve (round_up size) s behind)
  unfolding malloc found_at
  malloc-first_fit rounds size h bs before s behind ok enough found =
      let n = round_up size in
      let searched =
        search-first_fit head tail rounds head base n h.memory bs ok.tail_below enough ok.first
          ok.chain in
      let (whole, fits) = rw found at (first_fit-FitParts n bs) in
      (
        record h { memory = take_block (end_at base before) n h.memory },
        rw (searched, found, malloc) refl,
        taken-IsHeap h n s before behind (rw whole at ok) fits,
      )
