-- ===== src/Trees/Tests.antt =====
-- kernel/lib/tree.c: a tree of numbers.
use beryllium.Base.{ℕ, ◌+◌, ◌≡◌, refl, Bool, Option, some, [], ◌∷◌, ◌==◌}
use beryllium.Trees.{
  Node, node, nil, cons, Tree, Place, node_at, tree_node_create, insert_into,
  tree_node_insert_child, tree_node_find, tree_find,
}
use beryllium.Trees.Count.{descendants, size, IsCounted, IsAt}
use beryllium.Trees.Edits.{insert-IsCounted}
use beryllium.Trees.Search.{IsFirst, tree_find-IsFirst}

-- 1 over 2, which is over 3 and 4.
abbrev branch : Node ℕ
branch = node 2 (cons (node 3 nil) (cons (node 4 nil) nil))

abbrev tree : Tree ℕ
tree = record { nodes = 4; root = some (node 1 (cons branch nil)) }

tree-IsCounted : IsCounted tree
unfolding size descendants
tree-IsCounted = refl

branch-IsAt : IsAt tree (0 ∷ []) branch
unfolding node_at
branch-IsAt = (node 1 (cons branch nil), refl, refl)

insert-IsCounted_example :
    (u : Tree ℕ) × (tree_node_insert_child (0 ∷ []) 5 tree ≡ some u)
    × IsCounted u
    × (size u ≡ size tree + 1)
    × IsAt u (0 ∷ []) (insert_into (tree_node_create 5) branch)
insert-IsCounted_example = insert-IsCounted tree (0 ∷ []) branch 5 tree-IsCounted branch-IsAt

abbrev same : (a b : ℕ) → Bool
same a b = a == b

found_4 : tree_node_find same branch 4 ≡ some (1 ∷ [])
unfolding tree_node_find
found_4 = refl

tree_find-IsFirst_example :
    (found : Option Place) × (tree_find same tree 4 ≡ some found)
    × IsFirst same 4 found (node 1 (cons branch nil))
tree_find-IsFirst_example = tree_find-IsFirst same 4 tree (node 1 (cons branch nil)) refl
