-- ===== src/LinkedList/Append.antt =====
-- kernel/lib/list.c: `list_append` and `list_insert`, against the list of nodes.
use beryllium.Base.{
  ℕ, ◌+◌, ◌%◌, ◌^◌, ◌≡◌, ◌≢◌, refl, sym, ◌∙◌, true, false, List, [], ◌∷◌, ◌++◌, arith, length, ◌==◌,
  ne→==,
}
use beryllium.Links.{Linked, Fresh, Apart, last_of, last_of-Fresh, Apart-append, Linked-append}
use beryllium.LinkedList.{Node, Store, set_next, set_prev, list_append, fresh}

abbrev pub next_of : (ℕ → Node) → ℕ → ℕ
next_of nodes a = (nodes a).next

-- The links back, with `p` in front of the first node.
abbrev pub Back : (ℕ → Node) → ℕ → List ℕ → Type 0
Back nodes p [] = Unit {0}
Back nodes p (b ∷ bs) = ((nodes b).prev ≡ p) × Back nodes b bs

-- The nodes of the list, linked both ways.
pub record IsList (s : Store) (bs : List ℕ) : Type 0 where
  pub linked : Linked (next_of s.nodes) s.list.head bs
  pub back : Back s.nodes 0 bs
  pub apart : Apart bs
  pub last : s.list.tail ≡ last_of 0 bs
  pub size : s.list.length ≡ length bs % 2 ^ 32

Back-append :
    (nodes nodes' : ℕ → Node) (node p : ℕ) (bs : List ℕ)
    → ((x : ℕ) → x ≢ node → (nodes' x).prev ≡ (nodes x).prev)
    → (nodes' node).prev ≡ last_of p bs
    → Fresh node bs
    → Back nodes p bs
    → Back nodes' p (bs ++ (node ∷ []))
Back-append nodes nodes' node p [] same new fresh back = (new, tt)
Back-append nodes nodes' node p (b ∷ bs) same new (ne, fresh) (e, back) =
    (same b (λ f. ne (sym f)) ∙ e, Back-append nodes nodes' node b bs same new fresh back)

pub last_of-append : (p node : ℕ) (bs : List ℕ) → last_of p (bs ++ (node ∷ [])) ≡ node
last_of-append p node [] = refl
last_of-append p node (b ∷ bs) = last_of-append b node bs

pub length-snoc : (node : ℕ) (bs : List ℕ) → length (bs ++ (node ∷ [])) ≡ length bs + 1
length-snoc node [] = refl
length-snoc node (b ∷ bs) = omega (arith, length-snoc node bs)

pub last_of-filled :
    (next : ℕ → ℕ) (a b : ℕ) (bs : List ℕ) → Linked next a (b ∷ bs) → last_of b bs ≢ 0
last_of-filled next a b [] (e, ne, rest) = ne
last_of-filled next a b (c ∷ bs) (e, ne, rest) = last_of-filled next (next b) c bs rest

-- What `list_append` does to the nodes of a list that is not empty.
module _ (nodes : ℕ → Node) (node tail : ℕ) (new : node ≢ tail) where
  abbrev after : ℕ → Node
  after = set_prev node tail (set_next tail node (set_next node 0 nodes))

  after_tail : (after tail).next ≡ node
  unfolding set_prev set_next
  after_tail = ground (arith, new)

  after_node : (after node).next ≡ 0
  unfolding set_prev set_next
  after_node = ground (arith, new)

  after_back : (after node).prev ≡ tail
  unfolding set_prev set_next
  after_back = ground (arith, new)

  after_next : (x : ℕ) → x ≢ node → x ≢ tail → (after x).next ≡ (nodes x).next
  unfolding set_prev set_next
  after_next x ne far = ground (arith, ne, far)

  after_prev : (x : ℕ) → x ≢ node → (after x).prev ≡ (nodes x).prev
  unfolding set_prev set_next
  after_prev x ne = ground (arith, ne)

  after_value : (x : ℕ) → (after x).value ≡ (nodes x).value
  unfolding set_prev set_next
  after_value x = ground arith

alone_next : (nodes : ℕ → Node) (node : ℕ) → (set_prev node 0 (set_next node 0 nodes) node).next ≡ 0
unfolding set_prev set_next
alone_next nodes node = ground arith

alone_prev : (nodes : ℕ → Node) (node : ℕ) → (set_prev node 0 (set_next node 0 nodes) node).prev ≡ 0
unfolding set_prev set_next
alone_prev nodes node = ground arith

alone_value :
    (nodes : ℕ → Node) (node x : ℕ)
    → (set_prev node 0 (set_next node 0 nodes) x).value ≡ (nodes x).value
unfolding set_prev set_next
alone_value nodes node x = ground arith

-- `list_append` of a new node puts it behind the others, linked both ways, and no node gets another value.
pub list_append-IsList :
    (node : ℕ) (s : Store) (bs : List ℕ)
    → IsList s bs
    → node ≢ 0
    → Fresh node bs
    → IsList (list_append node s) (bs ++ (node ∷ []))
      × ((x : ℕ) → ((list_append node s).nodes x).value ≡ (s.nodes x).value)
unfolding list_append
list_append-IsList node s [] ok filled new =
    let empty : (s.list.tail == 0) ≡ true = ground (arith, ok.last) in
    rw empty (
      record {
        linked = (refl, filled, alone_next s.nodes node);
        back = (alone_prev s.nodes node, tt);
        apart = (tt, tt);
        last = refl;
        size = omega (arith, ok.size);
      },
      alone_value s.nodes node,
    )
list_append-IsList node s (b ∷ bs) ok filled new =
    let last = last_of b bs in
    let far = last_of-Fresh node b bs new in
    let full : (last_of 0 (b ∷ bs) == 0) ≡ false =
      ne→== last 0 (last_of-filled (next_of s.nodes) s.list.head b bs ok.linked) in
    let e = ok.linked.0 in
    let nodes = after s.nodes node last far in
    let linked : Linked (next_of s.nodes) b (b ∷ bs) = (refl, ok.linked.1, ok.linked.2) in
    let total = length-snoc node (b ∷ bs) in
    let longer_linked =
      Linked-append (next_of s.nodes) (next_of nodes) node b bs filled
        (after_tail s.nodes node last far) (after_node s.nodes node last far)
        (after_next s.nodes node last far) ok.apart new linked in
    simp (ok.last, full)
      (
        record {
          linked = (e, longer_linked.1, longer_linked.2);
          back =
              Back-append s.nodes nodes node 0 (b ∷ bs) (after_prev s.nodes node last far)
                (after_back s.nodes node last far) new ok.back;
          apart = Apart-append node (b ∷ bs) ok.apart new;
          last = sym (last_of-append 0 node (b ∷ bs));
          size = omega (arith, ok.size, total);
        },
        after_value s.nodes node last far,
      )
