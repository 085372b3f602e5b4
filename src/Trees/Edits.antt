-- ===== src/Trees/Edits.antt =====
-- kernel/lib/tree.c: inserting and removing keep the number of nodes.
use beryllium.Base.{
  ℕ, suc, ◌+◌, ◌%◌, ◌^◌, ◌≡◌, refl, Option, some, List, [], ◌∷◌, ◌++◌, arith, length,
}
use beryllium.Trees.{
  Node, node, Nodes, nil, cons, Tree, Place, value, children, node_at, change_at, tree_node_create,
  insert_into, tree_node_insert_child_node, tree_node_insert_child,
}
use beryllium.Trees.Count.{
  descendants, below, below-put_last, change_at-descendants, change_at-some, size, IsCounted, IsAt,
}

module _ {ℓ} {A : Type ℓ} where
  descendants-insert_into :
      (c n : Node A) → descendants (insert_into c n) ≡ descendants n + suc (descendants c)
  unfolding descendants insert_into
  descendants-insert_into c (node a cs) = omega (arith, below-put_last c cs)

  -- A change that is made turns the node of a pointer and the size of the tree.
  edited :
      (change : Node A → Option (Node A)) (x y : ℕ) (p : Place) (r n m : Node A)
      → node_at p r ≡ some n
      → change n ≡ some m
      → descendants m + x ≡ descendants n + y
      → (s : Node A) × (change_at change p r ≡ some s)
        × (node_at p s ≡ some m)
        × (descendants s + x ≡ descendants r + y)
  edited change x y p r n m at done differs =
      let (s, e, f) = change_at-some change 0 0 p r n m at done in
      (
        s,
        e,
        f,
        change_at-descendants change x y p r s
            (λ n' m' at' done'.
              let same : n' ≡ n = cc (at, at') in
              let made : m' ≡ m = cc (done, done', same) in rw (same, made) differs)
            e,
      )

  -- Through a pointer to a node of a tree whose `nodes` is the number of its nodes,
  -- `tree_node_insert_child` makes a tree of one node more whose `nodes` is their number again, and in
  -- which the pointer is to the same node with the new one as its last child.
  pub insert-IsCounted :
      (t : Tree A) (p : Place) (n : Node A) (a : A)
      → IsCounted t
      → IsAt t p n
      → (u : Tree A) × (tree_node_insert_child p a t ≡ some u)
        × IsCounted u
        × (size u ≡ size t + 1)
        × IsAt u p (insert_into (tree_node_create a) n)
  unfolding tree_node_insert_child tree_node_insert_child_node size tree_node_create descendants
      below
  insert-IsCounted t p n a counted (r, e, at) =
      let (s, f, g, h) =
        edited (λ n. some (insert_into (node a nil) n)) 0 1 p r n (insert_into (node a nil) n) at
          refl (omega (arith, descendants-insert_into (node a nil) n)) in
      (
        record { nodes = (t.nodes + 1) % 2 ^ 32; root = some s },
        rw (e, f) refl,
        (let c = rw e at counted in omega (arith, c, h)),
        rw e (omega (arith, h)),
        (s, refl, g),
      )

  -- The children in a list.
  unfoldable pub items : Nodes A → List (Node A)
  items nil = []
  items (cons c cs) = c ∷ items cs

  -- What the node `m` has of the node `n`: its value, and all its children in their order except for child `i`, which
  -- is `c`. Behind them are others.
  pub record IsLeft (n m c : Node A) (i : ℕ) (others : List (Node A)) : Type ℓ where
    pub before : List (Node A)
    pub after : List (Node A)
    pub whole : items (children n) ≡ before ++ (c ∷ after)
    pub place : length before ≡ i
    pub same : value m ≡ value n
    pub left : items (children m) ≡ before ++ (after ++ others)
