-- ===== src/LinkedList/Pop.antt =====
-- kernel/lib/list.c: `list_pop`, which takes off the last node, against the list of nodes.
use beryllium.Base.{
  ℕ, ◌≡◌, ◌≢◌, refl, sym, ◌∙◌, true, false, List, [], ◌∷◌, ◌++◌, arith, ◌==◌, ne→==,
}
use beryllium.Links.{
  Fresh, last_of, last_of-Fresh, Linked-end, Linked-front, Apart-shorten, Linked-shorten,
}
use beryllium.LinkedList.{Node, Store, set_next, set_prev, unlink, list_delete, list_pop}
use beryllium.LinkedList.Append.{next_of, Back, IsList, last_of-append, length-snoc}

Back-end :
    (nodes : ℕ → Node) (p node : ℕ) (bs : List ℕ)
    → Back nodes p (bs ++ (node ∷ []))
    → (nodes node).prev ≡ last_of p bs
Back-end nodes p node [] (e, tt) = e
Back-end nodes p node (b ∷ bs) (e, back) = Back-end nodes b node bs back

Back-shorten :
    (nodes nodes' : ℕ → Node) (p node : ℕ) (bs : List ℕ)
    → ((x : ℕ) → x ≢ node → (nodes' x).prev ≡ (nodes x).prev)
    → Fresh node bs
    → Back nodes p (bs ++ (node ∷ []))
    → Back nodes' p bs
Back-shorten nodes nodes' p node [] same fresh back = tt
Back-shorten nodes nodes' p node (b ∷ bs) same (ne, fresh) (e, back) =
    (same b (λ f. ne (sym f)) ∙ e, Back-shorten nodes nodes' b node bs same fresh back)

-- The last node goes: `last` is the one before it, or 0.
module _ (nodes : ℕ → Node) (node last : ℕ) (new : node ≢ last) (end : (nodes node).next ≡ 0)
    (front : (nodes node).prev ≡ last) where
  abbrev after : ℕ → Node
  after = set_next node 0 (set_prev node 0 (unlink node nodes))

  after_last : last ≢ 0 → (after last).next ≡ 0
  unfolding set_prev set_next unlink
  after_last ne = ground (arith, new, end, front, ne)

  after_next : (x : ℕ) → x ≢ node → x ≢ last → (after x).next ≡ (nodes x).next
  unfolding set_prev set_next unlink
  after_next x ne far = ground (arith, ne, far, end, front, new)

  after_prev : (x : ℕ) → x ≢ node → (after x).prev ≡ (nodes x).prev
  unfolding set_prev set_next unlink
  after_prev x ne = ground (arith, ne, end, front, new)

list_delete-IsList :
    (node : ℕ) (s : Store) (bs : List ℕ)
    → IsList s (bs ++ (node ∷ []))
    → s.list.tail ≡ node
    → IsList (list_delete node s) bs
unfolding list_delete
list_delete-IsList node s [] ok tail =
    let (filled, end) = Linked-end (next_of s.nodes) s.list.head node [] ok.linked in
    let front = Back-end s.nodes 0 node [] ok.back in
    let is_head : (node == s.list.head) ≡ true = ground (arith, ok.linked) in
    let is_tail : (node == s.list.tail) ≡ true = ground (arith, tail) in
    record {
      linked = rw is_head end;
      back = tt;
      apart = tt;
      last = rw is_tail front;
      size = omega (arith, ok.size);
    }
list_delete-IsList node s (b ∷ bs) ok tail =
    let (filled, end) = Linked-end (next_of s.nodes) s.list.head node (b ∷ bs) ok.linked in
    let front = Back-end s.nodes 0 node (b ∷ bs) ok.back in
    let (apart, fresh) = Apart-shorten node (b ∷ bs) ok.apart in
    let last = last_of b bs in
    let new = last_of-Fresh node b bs fresh in
    let not_head : (node == s.list.head) ≡ false = ground (arith, ok.linked.0, fresh.0) in
    let is_tail : (node == s.list.tail) ≡ true = ground (arith, tail) in
    let total = length-snoc node (b ∷ bs) in
    let next = after_next s.nodes node last new end front in
    let shut =
      after_last s.nodes node last new end front
        (Linked-front (next_of s.nodes) s.list.head node b bs ok.linked) in
    record {
      linked = rw not_head (
          Linked-shorten (next_of s.nodes) (next_of (after s.nodes node last new end front))
            s.list.head node b bs shut next ok.apart ok.linked);
      back =
          Back-shorten s.nodes (after s.nodes node last new end front) 0 node (b ∷ bs)
            (after_prev s.nodes node last new end front) fresh ok.back;
      apart = apart;
      last = rw is_tail front;
      size = omega (arith, ok.size, total);
    }

-- `list_pop` of a list with a last node returns it and leaves the others, linked both ways.
pub list_pop-IsList :
    (node : ℕ) (s : Store) (bs : List ℕ)
    → IsList s (bs ++ (node ∷ []))
    → ((list_pop s).1 ≡ node) × IsList (list_pop s).0 bs
unfolding list_pop
list_pop-IsList node s bs ok =
    let tail : s.list.tail ≡ node = ok.last ∙ last_of-append 0 node bs in
    let filled = (Linked-end (next_of s.nodes) s.list.head node bs ok.linked).0 in
    let full : (s.list.tail == 0) ≡ false = ne→== s.list.tail 0 (λ e. filled (sym tail ∙ e)) in
    let gone = list_delete-IsList s.list.tail s bs (rw (sym tail) at ok) refl in
    rw full (tail, gone)
