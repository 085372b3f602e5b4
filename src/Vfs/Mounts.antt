-- ===== src/Vfs/Mounts.antt =====
-- kernel/vfs.c: the tree of the mounted nodes, `vfs_mount` and `get_mount_point`. A chopped path is the
-- bytes of its buffer, the NULs included, and a pointer into it is what is left of them from there on.
pub mod Words
pub mod Mounted
pub mod Walks
pub mod Mounting
pub mod Longest
pub mod Prefixes
use beryllium.Base.{
  ℕ, zero, suc, ◌+◌, ◌%◌, ◌^◌, Bool, true, false, Option, none, some, ◌>>=◌, List, [], ◌∷◌, ◌++◌,
  leb, ◌==◌, if◌then◌else◌, length, drop, map,
}
use beryllium.Strings.{strcmp}
use beryllium.Trees.{
  Node, node, Nodes, nil, cons, Tree, value, children, tree_create, tree_set_root, tree_node_create,
}
use beryllium.Vfs.{separator}

-- `struct vfs_entry`; the file is none for NULL.
pub record Entry (F : Type 0) : Type 0 where
  pub name : List ℕ
  pub file : Option F

-- `vfs_tree` and `vfs_root_node`, none for NULL.
pub record Vfs (F : Type 0) : Type 0 where
  pub vfs_tree : Option (Tree (Entry F))
  pub vfs_root_node : Option F

-- `[root]`
abbrev pub root_name : List ℕ
root_name = b'[' ∷ (b'r' ∷ (b'o' ∷ (b'o' ∷ (b't' ∷ (b']' ∷ [])))))

-- The string at a pointer.
unfoldable pub word : List ℕ → List ℕ
word [] = []
word (c ∷ cs) = let rest = word cs in if c == 0 then [] else c ∷ rest

-- `at + strlen(at) + 1`
unfoldable pub skip : List ℕ → List ℕ
skip at = drop (suc (length (word at))) at

-- The loop that puts a NUL in the place of each separator, and the NUL behind the last byte.
unfoldable pub chop : List ℕ → List ℕ
chop [] = 0 ∷ []
chop (c ∷ cs) = (if c == separator then 0 else c) ∷ chop cs

unfoldable pub is_nul : List ℕ → Bool
is_nul [] = true
is_nul (c ∷ cs) = c == 0

-- Whether `path[0] == '/'`.
unfoldable pub is_absolute : List ℕ → Bool
is_absolute [] = false
is_absolute (c ∷ cs) = c == separator

-- `path` behind `depth` more strings.
unfoldable pub skips : (depth : ℕ) → List ℕ → List ℕ
skips zero path = path
skips (suc n) path = skips n (skip path)

-- `last`, `*outpath` and `_tree_depth`.
abbrev pub Found : Type 0 → Type 0
Found F = Option F × List ℕ × ℕ

-- What a walk leaves of the nodes, how many it has inserted, and `ret_val`.
abbrev pub Walked : Type 0 → Type 0
Walked X = X × ℕ × ℕ

module _ {F : Type 0} where
  unfoldable pub vfs_init : Vfs F → Vfs F
  vfs_init v = record v {
    vfs_tree = some (tree_set_root (record { name = root_name; file = none }) tree_create);
  }

  -- The first child whose name `strcmp` finds equal.
  unfoldable pub child_named : (name : List ℕ) → Nodes (Entry F) → Option (Node (Entry F))
  child_named name nil = none
  child_named name (cons c cs) =
      let rest = child_named name cs in if strcmp (value c).name name == 0 then some c else rest

  -- `ent` of the new node for a name.
  unfoldable pub new_entry : (name : List ℕ) → Node (Entry F)
  new_entry name = tree_node_create (record { name = name; file = none })

  unfoldable pub set_file : (local_root : F) → Node (Entry F) → Walked (Node (Entry F))
  set_file local_root (node ent cs) = elim ent.file [
    | some f ↦ (node ent cs, 0, 3)
    | none ↦ (node (record ent { file = some local_root }) cs, 0, 0)
  ]

  -- The `foreach` over the children for the one that the walk goes on in, which is inserted behind
  -- them if it is not found; `step` is the rest of the walk.
  unfoldable pub walk_in :
      (step : Node (Entry F) → Option (Walked (Node (Entry F))))
      → (name : List ℕ) → Nodes (Entry F)
      → Option (Walked (Nodes (Entry F)))
  walk_in step name nil = do
    (n, made, code) ← step (new_entry name)
    some (cons n nil, made + 1, code)
  walk_in step name (cons c cs) = elim (strcmp (value c).name name == 0) [
    | true ↦ do (n, made, code) ← step c; some (cons n cs, made, code)
    | false ↦ do (ds, made, code) ← walk_in step name cs; some (cons c ds, made, code)
  ]

  -- `while (1)` from a node on. `p + path_len` has one byte left. Each round moves `at`, so that its
  -- length and one is enough fuel; `none` is a walk that goes on.
  unfoldable pub walk_from :
      (fuel : ℕ) (local_root : F) (at : List ℕ) → Node (Entry F) → Option (Walked (Node (Entry F)))
  walk_from zero local_root at n = none
  walk_from (suc fuel) local_root at (node ent cs) = elim (leb (length at) 1) [
    | true ↦ some (set_file local_root (node ent cs))
    | false ↦ do
      (ds, made, code) ← walk_in (walk_from fuel local_root (skip at)) (word at) cs
      some (node ent ds, made, code)
  ]

  -- The tree after a walk.
  abbrev grown : Tree (Entry F) → Node (Entry F) → (made : ℕ) → Tree (Entry F)
  grown t n made = record { nodes = (t.nodes + made) % 2 ^ 32; root = some n }

  -- `*i == '\0'` behind the first separator is the root.
  unfoldable pub mount_root : (local_root : F) → Tree (Entry F) → Node (Entry F) → Vfs F → Vfs F × ℕ
  mount_root local_root t (node ent cs) v = elim ent.file [
    | some f ↦ (v, 3)
    | none ↦ (
      record {
        vfs_tree = some (grown t (node (record ent { file = some local_root }) cs) 0);
        vfs_root_node = some local_root;
      },
      0,
    )
  ]

  unfoldable pub mount_path :
      (path : List ℕ) (local_root : F) → Tree (Entry F) → Vfs F → Option (Vfs F × ℕ)
  mount_path path local_root t v = do
    root_node ← t.root
    elim (is_nul (drop 1 (chop path))) [
      | true ↦ some (mount_root local_root t root_node v)
      | false ↦ do
        (n, made, code) ← walk_from (suc (length path)) local_root (drop 1 (chop path)) root_node
        some (record v { vfs_tree = some (grown t n made) }, code)
    ]

  -- `path` is none for NULL, and `local_root` is not NULL. `none` is a tree without a root.
  unfoldable pub vfs_mount : (path : Option (List ℕ)) (local_root : F) → Vfs F → Option (Vfs F × ℕ)
  vfs_mount path local_root v = elim v.vfs_tree [
    | none ↦ some (v, 1)
    | some t ↦ elim path [
      | none ↦ some (v, 2)
      | some p ↦ elim (is_absolute p) [ true ↦ mount_path p local_root t v | false ↦ some (v, 2) ]
    ]
  ]

  -- The rest of the `while (1)` in `get_mount_point` from a node on; `path` is the end. Each round moves
  -- `at`, so that its length and one is enough fuel.
  unfoldable pub search_from :
      (fuel : ℕ) (path at : List ℕ) (depth : ℕ) → Found F → Node (Entry F) → Option (Found F)
  search_from zero path at depth found n = none
  search_from (suc fuel) path at depth found (node ent cs) = elim (leb (length at) (length path)) [
    | true ↦ some found
    | false ↦ elim (child_named (word at) cs) [
      | none ↦ some found
      | some c ↦ elim (value c).file [
        | none ↦ search_from fuel path (skip at) (depth + 1) found c
        | some f ↦ search_from fuel path (skip at) (depth + 1) (some f, skip at, depth) c
      ]
    ]
  ]

  unfoldable pub get_mount_point :
      (path : List ℕ) (path_depth : ℕ) (outpath : List ℕ) → Vfs F → Option (Found F)
  get_mount_point path path_depth outpath v = do
    t ← v.vfs_tree
    n ← t.root
    search_from (suc (length outpath)) (skips (suc path_depth) path) outpath 1
        (v.vfs_root_node, outpath, 0) n
