-- ===== src/Trees.antt =====
-- kernel/lib/tree.c: trees whose nodes have a list of children. The nodes are values, and a pointer to a
-- node is the list of the positions of children that lead to it from the root.
pub mod Search
pub mod Count
pub mod Edits
mod Tests
use beryllium.Base.{
  ℕ, zero, suc, ◌+◌, ◌-◌, ◌%◌, ◌^◌, Bool, true, false, Option, none, some, ◌>>=◌, List, [], ◌∷◌,
  ◌++◌, if◌then◌else◌,
}
use mathlib.Core.Option.{map}

-- `tree_node_t` with its children.
mutual
  pub data Node {ℓ} (A : Type ℓ) : Type ℓ where
    node : A → Nodes A → Node A

  pub data Nodes {ℓ} (A : Type ℓ) : Type ℓ where
    nil : Nodes A
    cons : Node A → Nodes A → Nodes A

-- `tree_t`; the root is none for NULL.
pub record Tree {ℓ} (A : Type ℓ) : Type ℓ where
  pub nodes : ℕ
  pub root : Option (Node A)

-- A pointer to a node.
abbrev pub Place : Type 0
Place = List ℕ

-- The pointer to the parent and the index in its children, or none for the root, whose `parent` is NULL.
unfoldable pub parent_of : Place → Option (Place × ℕ)
parent_of [] = none
parent_of (i ∷ p) = elim (parent_of p) [ none ↦ some ([], i) | some (q, j) ↦ some (i ∷ q, j) ]

module _ {ℓ} {A : Type ℓ} where
  abbrev pub value : Node A → A
  value (node a cs) = a

  abbrev pub children : Node A → Nodes A
  children (node a cs) = cs

  -- `length` of the list of children.
  unfoldable pub length_of : Nodes A → ℕ
  length_of nil = 0
  length_of (cons c cs) = suc (length_of cs)

  -- `list_insert` into the children.
  unfoldable pub put_last : Node A → Nodes A → Nodes A
  put_last c nil = cons c nil
  put_last c (cons d ds) = cons d (put_last c ds)

  -- `list_merge` of two lists of children.
  unfoldable pub list_merge : Nodes A → Nodes A → Nodes A
  list_merge nil ds = ds
  list_merge (cons c cs) ds = cons c (list_merge cs ds)

  -- `list_delete` of the child at an index.
  unfoldable pub list_delete : Nodes A → ℕ → Option (Nodes A)
  list_delete nil i = none
  list_delete (cons c cs) zero = some cs
  list_delete (cons c cs) (suc i) = map (cons c) (list_delete cs i)

  unfoldable pub child_at : Nodes A → ℕ → Option (Node A)
  child_at nil i = none
  child_at (cons c cs) zero = some c
  child_at (cons c cs) (suc i) = child_at cs i

  -- The node that a pointer is to, or none if it is to none in this tree.
  unfoldable mutual
    pub node_at : Place → Node A → Option (Node A)
    node_at [] n = some n
    node_at (i ∷ p) (node a cs) = node_in i p cs

    pub node_in : ℕ → Place → Nodes A → Option (Node A)
    node_in i p nil = none
    node_in zero p (cons c cs) = node_at p c
    node_in (suc i) p (cons c cs) = node_in i p cs

  -- What a write through a pointer makes of a tree; `change` may fail.
  unfoldable mutual
    pub change_at : (Node A → Option (Node A)) → Place → Node A → Option (Node A)
    change_at change [] n = change n
    change_at change (i ∷ p) (node a cs) = map (node a) (change_in change i p cs)

    pub change_in : (Node A → Option (Node A)) → ℕ → Place → Nodes A → Option (Nodes A)
    change_in change i p nil = none
    change_in change zero p (cons c cs) = map (λ d. cons d cs) (change_at change p c)
    change_in change (suc i) p (cons c cs) = map (cons c) (change_in change i p cs)

  unfoldable pub tree_create : Tree A
  tree_create = record { nodes = 0; root = none }

  unfoldable pub tree_node_create : A → Node A
  tree_node_create a = node a nil

  unfoldable pub tree_set_root : A → Tree A → Tree A
  tree_set_root a t = record { nodes = 1; root = some (tree_node_create a) }

  unfoldable pub insert_into : (child : Node A) → Node A → Node A
  insert_into child (node a cs) = node a (put_last child cs)

  unfoldable pub tree_node_insert_child_node :
      (parent : Place) (child : Node A) → Tree A → Option (Tree A)
  tree_node_insert_child_node parent child t = do
    r ← t.root
    changed ← change_at (λ n. some (insert_into child n)) parent r
    some (record { nodes = (t.nodes + 1) % 2 ^ 32; root = some changed })

  unfoldable pub tree_node_insert_child : (parent : Place) → A → Tree A → Option (Tree A)
  tree_node_insert_child parent a t = tree_node_insert_child_node parent (tree_node_create a) t

  -- `size_t` of the children, and of those below them: `out` is the sum so far.
  unfoldable mutual
    pub tree_count_children : Node A → ℕ
    tree_count_children (node a cs) = count_in (length_of cs % 2 ^ 32) cs

    pub count_in : (out : ℕ) → Nodes A → ℕ
    count_in out nil = out
    count_in out (cons c cs) = count_in ((out + tree_count_children c) % 2 ^ 32) cs

  unfoldable pub without : ℕ → Node A → Option (Node A)
  without i (node a cs) = map (node a) (list_delete cs i)

  -- `tree_node_parent_remove` of the child at index `i` of `parent`.
  unfoldable pub tree_node_parent_remove : (parent : Place) (i : ℕ) → Tree A → Option (Tree A)
  tree_node_parent_remove parent i t = do
    r ← t.root
    n ← node_at parent r
    child ← child_at (children n) i
    changed ← change_at (without i) parent r
    some (record {
      nodes = (t.nodes + (2 ^ 32 - (tree_count_children child + 1) % 2 ^ 32)) % 2 ^ 32;
      root = some changed;
    })

  -- `tree_node_remove`. For the root, what follows reads through its `parent`.
  unfoldable pub tree_node_remove : Place → Tree A → Option (Tree A)
  tree_node_remove p t = do (parent, i) ← parent_of p; tree_node_parent_remove parent i t

  -- The children of the child at index `i` move to the end of the list that it is removed from.
  unfoldable pub adopt : ℕ → Node A → Option (Node A)
  adopt i (node a cs) = do
    child ← child_at cs i
    left ← list_delete cs i
    some (node a (list_merge left (children child)))

  -- `tree_remove` of the child at index `i` of `parent`. The root, which has no parent, is left alone.
  unfoldable pub tree_remove : (parent : Place) (i : ℕ) → Tree A → Option (Tree A)
  tree_remove parent i t = do
    r ← t.root
    changed ← change_at (adopt i) parent r
    some (record { nodes = (t.nodes + (2 ^ 32 - 1)) % 2 ^ 32; root = some changed })

-- What is searched for is a value of its own type, and the comparator says whether a value matches it.
module _ {ℓ κ} {A : Type ℓ} {S : Type κ} (comparator : A → S → Bool) where
  -- `found` of a child at index `k`, else the loop over the others.
  abbrev pub found_at : ℕ → Option Place → Option Place → Option Place
  found_at k none others = others
  found_at k (some p) others = some (k ∷ p)

  unfoldable mutual
    pub tree_node_find : Node A → S → Option Place
    tree_node_find (node a cs) sought =
        let below = find_in 0 cs sought in if comparator a sought then some [] else below

    pub find_in : ℕ → Nodes A → S → Option Place
    find_in k nil sought = none
    find_in k (cons c cs) sought = found_at k (tree_node_find c sought) (find_in (suc k) cs sought)

  unfoldable pub tree_find : Tree A → S → Option (Option Place)
  tree_find t sought = elim t.root [ none ↦ none | some r ↦ some (tree_node_find r sought) ]
