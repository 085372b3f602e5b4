-- ===== src/Heap/Update.antt =====
-- kernel/malloc.c: the heap after an operation on its blocks from one on.
use beryllium.Base.{ℕ, ◌≡◌, sym, ap, ◌∙◌, List, ◌++◌, arith}
use beryllium.Heap.{Memory, Heap, Break, end_of}
use beryllium.Heap.Blocks.{Block}
use beryllium.Heap.Chain.{link, last_of, end_at, le-end_at, link-append, chain_replace}
use beryllium.Heap.Take.{IsDone}
use beryllium.Heap.Chain.{IsHeap}
use beryllium.Heap.Ends.{end_at-append}

module _ {B : Type 0} (k : Break B) (head tail base : ℕ) where
  -- What an operation on the blocks behind `before` leaves is the heap with those blocks replaced.
  pub done-IsHeap :
      (h : Heap B) (m' : Memory) (before old new : List Block)
      → IsHeap k head tail base h (before ++ old)
      → link tail (end_at base before) old ≡ link tail (end_at base before) new
      → end_at (end_at base before) new ≡ end_at (end_at base before) old
      → IsDone h.memory m' tail (last_of head base before) (end_at base before) new
      → IsHeap k head tail base (record h { memory = m' }) (before ++ new)
  unfolding end_of
  done-IsHeap h m' before old new ok linked same_end done =
      let low = le-end_at base before in
      let same = done.before head (omega (arith, low, ok.head_below)) ok.apart in
      let total = end_at-append base before new ∙ same_end ∙ sym (end_at-append base before old) in
      record {
        apart = ok.apart;
        head_below = ok.head_below;
        tail_below = ok.tail_below;
        first = ap (λ r. r.next) same ∙ ok.first ∙ link-append tail base before old new linked;
        head_used = ap (λ r. r.free) same ∙ ok.head_used;
        tail_used = done.closed ∙ ok.tail_used;
        chain =
            chain_replace tail h.memory m' head base before old new linked
              (λ x le lt. done.before x lt (omega (arith, le, ok.tail_below))) ok.chain done.chain;
        ends = total ∙ ok.ends;
        small = omega (arith, total, ok.small);
      }
