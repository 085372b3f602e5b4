-- ===== src/Heap/Extend.antt =====
-- kernel/malloc.c: `malloc` where no block fits, against the list of blocks.
use beryllium.Base.{
  ℕ, ◌+◌, ◌%◌, ◌^◌, ◌≤◌, ◌<◌, ◌≡◌, ◌≢◌, refl, sym, ap, ◌∙◌, ◌⊎◌, inl, inr, Bool, true, false, List,
  [], ◌∷◌, ◌++◌, arith, ◌==◌, if◌then◌else◌, Bool-cases, none, some, length, ne→==,
}
use beryllium.Heap.{
  Meta, Memory, Heap, Break, write_size, write_free, write_prev, write_next, append, enlarge,
  end_of, malloc_new, malloc, round_up,
}
use beryllium.Heap.Calls.{Enlarges, enlarge-Enlarges}
use beryllium.Heap.Blocks.{Block, used, first_fit}
use beryllium.Heap.Chain.{meta, link, Chain, last_of, last_of-lt, end_at, le-end_at, IsHeap}
use beryllium.Heap.Search.{search-first_fit, found_at}
use beryllium.Heap.Ends.{end_at-append}

le-last_of : (p a : ℕ) (bs : List Block) → p < a → p ≤ last_of p a bs
unfolding last_of
le-last_of p a [] lt = omega arith
le-last_of p a (b ∷ bs) lt = omega (arith, lt, le-last_of a (a + b.size + 16) bs (omega arith))

-- A chain gets one more block at its end.
grown :
    (m m' : Memory) (tail p a s : ℕ) (bs : List Block)
    → p < a
    → ((x : ℕ) → a ≤ x → x < end_at a bs → x ≢ last_of p a bs → m' x ≡ m x)
    → (a ≤ last_of p a bs
        → m' (last_of p a bs) ≡ record (m (last_of p a bs)) { next = end_at a bs })
    → m' (end_at a bs) ≡ meta s false (last_of p a bs) tail
    → (m' tail).prev ≡ end_at a bs
    → Chain m tail p a bs
    → Chain m' tail p a (bs ++ (used s ∷ []))
unfolding last_of end_at
grown m m' tail p a s [] lt same last new closed c = (new, closed)
grown m m' tail p a s (b ∷ []) lt same last new closed c = (
  last (omega arith) ∙ ap {A = Meta} (λ r. record r { next = a + b.size + 16 }) c.0,
  (new, closed),
)
grown m m' tail p a s (b ∷ (d ∷ bs)) lt same last new closed c =
    let a' = a + b.size + 16 in
    let a'' = a' + d.size + 16 in
    let up = le-last_of a' a'' bs (omega arith) in
    let far = le-end_at a'' bs in
    (
      same a (omega arith) (omega (arith, far)) (omega (arith, up)) ∙ c.0,
      grown m m' tail a a' s (d ∷ bs) (omega arith) (λ x le. same x (omega (arith, le)))
          (λ le. last (omega (arith, le))) new closed c.1,
    )

chain_prev_end :
    (m : Memory) (tail p a : ℕ) (bs : List Block)
    → Chain m tail p a bs
    → (m tail).prev ≡ last_of p a bs
unfolding last_of
chain_prev_end m tail p a [] c = c
chain_prev_end m tail p a (b ∷ bs) c = chain_prev_end m tail a (a + b.size + 16) bs c.1

-- The new block at `a` behind the last one, at `p`.
module _ (head tail p a s : ℕ) (m : Memory) (last : (m tail).prev ≡ p) (behind : a ≢ p)
    (fresh : a ≢ tail) (inside : p ≢ tail) where
  append_new : append head tail a s m a ≡ meta s false p tail
  unfolding append write_free write_size write_prev write_next
  append_new = ground (arith, last, behind, fresh, inside)

  append_last : append head tail a s m p ≡ record (m p) { next = a }
  unfolding append write_free write_size write_prev write_next
  append_last = ground (arith, last, behind, fresh, inside)

  append_tail : append head tail a s m tail ≡ record (m tail) { prev = a }
  unfolding append write_free write_size write_prev write_next
  append_tail = ground (arith, last, behind, fresh, inside)

  append_other : (x : ℕ) → x ≢ a → x ≢ p → x ≢ tail → append head tail a s m x ≡ m x
  unfolding append write_free write_size write_prev write_next
  append_other x new old end = ground (arith, last, behind, fresh, inside, new, old, end)

link-more : (tail a : ℕ) (b : Block) (bs : List Block) → link tail a (bs ++ (b ∷ [])) ≡ a
link-more tail a b [] = refl
link-more tail a b (c ∷ bs) = refl

link-first :
    (tail p a : ℕ) (bs : List Block)
    → p < a
    → ((last_of p a bs ≡ p) × (end_at a bs ≡ a)) ⊎ ((a ≤ last_of p a bs) × (link tail a bs ≡ a))
unfolding last_of end_at
link-first tail p a [] lt = inl (refl, refl)
link-first tail p a (b ∷ bs) lt = inr (le-last_of a (a + b.size + 16) bs (omega arith), refl)

end_kept :
    (a s at : ℕ)
    → a + (s + 16) < 2 ^ 32
    → a + s + 16 ≡ (if (a + (s + 16)) % 2 ^ 32 == 0 then at else (a + (s + 16)) % 2 ^ 32)
end_kept a s at room = ground (arith, room)

module _ {B : Type 0} (k : Break B) (head tail base : ℕ) where
  -- What `malloc` leaves where no block fits.
  abbrev pub IsGrown : (size : ℕ) → List Block → (enough : Bool) → Heap B → (ptr : ℕ) → Type 0
  IsGrown size bs enough h ptr =
      ((enough ≡ true)
        × (ptr ≡ end_at base bs + 16)
        × IsHeap k head tail base h (bs ++ (used size ∷ [])))
      ⊎ ((enough ≡ false) × (ptr ≡ 0) × IsHeap k head tail base h bs)

  append-IsHeap :
      (h : Heap B) (brk : B) (bs : List Block) (s : ℕ)
      → IsHeap k head tail base h bs
      → end_at base bs + (s + 16) < 2 ^ 32
      → IsHeap k head tail base
          (record {
            memory = append head tail (end_at base bs) s h.memory;
            alloc_end = (end_at base bs + (s + 16)) % 2 ^ 32;
            brk = brk;
          })
          (bs ++ (used s ∷ []))
  unfolding end_of end_at
  append-IsHeap h brk bs s ok room =
      let a = end_at base bs in
      let p = last_of head base bs in
      let low = le-end_at base bs in
      let below = last_of-lt head base bs ok.head_below in
      let last = chain_prev_end h.memory tail head base bs ok.chain in
      let place = link-first tail head base bs ok.head_below in
      let behind : a ≢ p = omega (arith, below) in
      let fresh : a ≢ tail = omega (arith, low, ok.tail_below) in
      let inside : p ≢ tail = ground (arith, place, ok.tail_below, ok.apart) in
      let new = append_new head tail p a s h.memory last behind fresh inside in
      let at_last = append_last head tail p a s h.memory last behind fresh inside in
      let at_tail = append_tail head tail p a s h.memory last behind fresh inside in
      let other = append_other head tail p a s h.memory last behind fresh inside in
      let total = end_at-append base bs (used s ∷ []) in
      let m' = append head tail a s h.memory in
      let same : base ≤ p → m' head ≡ h.memory head = λ le.
        other head (omega (arith, low, ok.head_below)) (omega (arith, le, ok.head_below))
          ok.apart in
      record {
        apart = ok.apart;
        head_below = ok.head_below;
        tail_below = ok.tail_below;
        first =
            elim place [
              | inl (alone, start) ↦
                  ap (λ x. (m' x).next) (sym alone) ∙ ap (λ r. r.next) at_last ∙ start
              | inr (le, start) ↦ ap (λ r. r.next) (same le) ∙ ok.first ∙ start
            ]
            ∙ sym (link-more tail base (used s) bs);
        head_used = elim place [
          | inl (alone, start) ↦
              ap (λ x. (m' x).free) (sym alone)
              ∙ ap (λ r. r.free) at_last
              ∙ ap (λ x. (h.memory x).free) alone
              ∙ ok.head_used
          | inr (le, start) ↦ ap (λ r. r.free) (same le) ∙ ok.head_used
        ];
        tail_used = ap (λ r. r.free) at_tail ∙ ok.tail_used;
        chain =
            grown h.memory (append head tail a s h.memory) tail head base s bs ok.head_below
              (λ x le lt ne. other x (omega (arith, lt)) ne (omega (arith, le, ok.tail_below)))
              (λ le. at_last) new (ap (λ r. r.prev) at_tail) ok.chain;
        ends = total ∙ end_kept (end_at base bs) s (k.current brk) room;
        small = omega (arith, total, room);
      }

module _ {B : Type 0} (k : Break B) where
  module _ (head tail base : ℕ) where
    kept-IsHeap :
        (h : Heap B) (bs : List Block) (b : B)
        → IsHeap k head tail base h bs
        → IsHeap k head tail base (record h { alloc_end = end_at base bs; brk = b }) bs
    unfolding end_of
    kept-IsHeap h bs b ok =
        let filled : (end_at base bs == 0) ≡ false =
          ne→== (end_at base bs) 0 (omega (arith, le-end_at base bs, ok.head_below)) in
        record {
          apart = ok.apart;
          head_below = ok.head_below;
          tail_below = ok.tail_below;
          first = ok.first;
          head_used = ok.head_used;
          tail_used = ok.tail_used;
          chain = ok.chain;
          ends = rw filled refl;
          small = ok.small;
        }

    malloc_new-enlarge :
        (rounds size a : ℕ) (h : Heap B) (b : B) (enough : Bool)
        → a ≡ end_of k h
        → enlarge k rounds ((size + 16) % 2 ^ 32) a h.brk ≡ some (b, enough)
        → malloc_new k head tail rounds size h
          ≡ some (
              if enough
              then (
                record {
                  memory = append head tail a size h.memory;
                  alloc_end = (a + (size + 16)) % 2 ^ 32;
                  brk = b;
                },
                a + 16,
              )
              else (record h { alloc_end = a; brk = b }, 0))
    unfolding malloc_new
    malloc_new-enlarge rounds size a h b enough same run =
        rw (same, rw same at run, malloc_new) refl

    malloc_new-IsGrown :
        (rounds calls size : ℕ) (h : Heap B) (bs : List Block) (c : B) (enough : Bool)
        → IsHeap k head tail base h bs
        → end_at base bs + (size + 16) < 2 ^ 32
        → calls < rounds
        → Enlarges k (size + 16) (end_at base bs) calls h.brk c enough
        → (h' : Heap B) × (ptr : ℕ) × (malloc_new k head tail rounds size h ≡ some (h', ptr))
          × (h'.brk ≡ c)
          × IsGrown k head tail base size bs enough h' ptr
    malloc_new-IsGrown rounds calls size h bs c enough ok room lt made =
        let a = end_at base bs in
        let need : (size + 16) % 2 ^ 32 ≡ size + 16 = omega (arith, room) in
        let run = enlarge-Enlarges k rounds calls (size + 16) a h.brk c enough made lt in
        let ran = malloc_new-enlarge rounds size a h c enough ok.ends (rw need run) in
        elim (Bool-cases enough) [
          | inl got ↦ (
            _,
            a + 16,
            rw got at ran,
            refl,
            inl (got, refl, append-IsHeap k head tail base h c bs size ok room),
          )
          | inr short ↦ (_, 0, rw short at ran, refl, inr (short, refl, kept-IsHeap h bs c ok))
        ]

    -- If no block fits, `malloc` makes the calls of `sbrk` that it takes until the break is far enough or a call
    -- returns -1, whatever they do. In the first case it returns a new block behind the others, and in the second NULL with
    -- the blocks as they were. The new block ends within the address space, and the rounds are more than the
    -- blocks and the calls.
    pub malloc-no_fit :
        (rounds calls size : ℕ) (h : Heap B) (bs : List Block) (c : B) (enough : Bool)
        → IsHeap k head tail base h bs
        → end_at base bs + (round_up size + 16) < 2 ^ 32
        → length bs < rounds
        → calls < rounds
        → first_fit (round_up size) bs ≡ none
        → Enlarges k (round_up size + 16) (end_at base bs) calls h.brk c enough
        → (h' : Heap B) × (ptr : ℕ) × (malloc k head tail rounds size h ≡ some (h', ptr))
          × (h'.brk ≡ c)
          × IsGrown k head tail base (round_up size) bs enough h' ptr
    unfolding malloc found_at
    malloc-no_fit rounds calls size h bs c enough ok room longer lt no_fit made =
        let searched =
          search-first_fit head tail rounds head base (round_up size) h.memory bs ok.tail_below
            longer ok.first ok.chain in
        let (h', ptr, run, brk, grown) =
          malloc_new-IsGrown rounds calls (round_up size) h bs c enough ok room lt made in
        (h', ptr, rw (searched, no_fit, malloc) run, brk, grown)
