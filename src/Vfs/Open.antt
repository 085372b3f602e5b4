-- ===== src/Vfs/Open.antt =====
-- kernel/vfs.c: `kopen` and `create_file_vfs`. What `kopen` returns is a copy of a node or what a driver returned.
pub mod Followed
pub mod Texts
pub mod Opened
pub mod Created
mod Tests
use beryllium.Base.{
  ℕ, zero, suc, ◌+◌, ◌-◌, ◌%◌, ◌^◌, Bool, true, false, Option, none, some, ◌>>=◌, List, [], ◌∷◌,
  leb, ◌==◌, if◌then◌else◌, length, drop, get_or,
}
use beryllium.Vfs.{separator, canonicalize_path}
use beryllium.Vfs.Nodes.{Driver, open_vfs, finddir_vfs}
use beryllium.Vfs.Mounts.{Vfs, word, skip, chop, get_mount_point}

-- `cwd`
abbrev pub cwd : List ℕ
cwd = separator ∷ []

-- `path_depth`
unfoldable pub separators : List ℕ → ℕ
separators [] = 0
separators (c ∷ cs) = let rest = separators cs in if c == separator then suc rest else rest

-- `create_file_vfs`: `path` is scanned back from its last byte at `i`, but not before its first.
unfoldable pub f_path : (path : List ℕ) → (i : ℕ) → List ℕ
f_path path zero = path
f_path path (suc i) =
    let before = f_path path i in
    if get_or path (suc i) 0 == separator then drop (suc (suc i)) path else before

module _ {F W : Type 0} (driver : Driver F W) where
  -- The rest of a round with what `finddir_vfs` has left and returned: `n` rounds are to come, which `dig_on` does.
  unfoldable pub search_on :
      (n flags : ℕ) (dig_on : F → (path_offset : List ℕ) → W → W × Option F) (path_offset : List ℕ)
      → W × Option F
      → W × Option F
  search_on n flags dig_on path_offset (w, none) = (w, none)
  search_on zero flags dig_on path_offset (w, some next) = (open_vfs driver next flags w, some next)
  search_on (suc n) flags dig_on path_offset (w, some next) = dig_on next path_offset w

  -- The rounds of the loop over `depth`, in the node `node_ptr`.
  unfoldable pub dig :
      (rounds : ℕ) (flags : ℕ) → (node_ptr : F) (path_offset : List ℕ) → W → W × Option F
  dig zero flags node_ptr path_offset w = (w, none)
  dig (suc n) flags node_ptr path_offset w =
      search_on n flags (dig n flags) (skip path_offset)
        (finddir_vfs driver node_ptr (word path_offset) w)

  -- From the mount point on. `path + path_len` has one byte left. `none` is a copy from NULL.
  unfoldable pub open_below :
      (path_depth flags : ℕ) (mount_point : Option F) (path_offset : List ℕ) (depth : ℕ)
      → W
      → Option (W × Option F)
  open_below path_depth flags mount_point path_offset depth w = elim (leb (length path_offset) 1) [
    | true ↦ some (w, mount_point)
    | false ↦ do node ← mount_point; some (dig (path_depth - depth) flags node path_offset w)
  ]

  -- With the canonical path.
  unfoldable pub open_path : (path : List ℕ) (flags : ℕ) → Vfs F → W → Option (W × Option F)
  open_path path flags v w = elim (length path == 1) [
    | true ↦ do root ← v.vfs_root_node; some (w, some root)
    | false ↦ do
      (mount_point, path_offset, depth) ←
          get_mount_point (chop path) (separators path) (drop 1 (chop path)) v
      open_below (separators path) flags mount_point path_offset depth w
  ]

  -- `filename` is none for NULL. `none` is a read through NULL.
  unfoldable pub kopen :
      (filename : Option (List ℕ)) (flags : ℕ) → Vfs F → W → Option (W × Option F)
  kopen filename flags v w = do
    t ← v.vfs_tree
    elim t.root [
      | none ↦ some (w, none)
      | some r ↦ elim filename [
        | none ↦ some (w, none)
        | some name ↦ do path ← canonicalize_path cwd name; open_path path flags v w
      ]
    ]

  unfoldable pub create_in : (name : List ℕ) (permission : ℕ) → (parent : Option F) → W → W × ℕ
  create_in name permission none w = (w, 2 ^ 32 - 1)
  create_in name permission (some parent) w = elim (driver.create parent) [
    | none ↦ (w, 0)
    | some create ↦ (create name permission w, 0)
  ]

  unfoldable pub create_file_vfs : (name : List ℕ) (permission : ℕ) → Vfs F → W → Option (W × ℕ)
  create_file_vfs name permission v w = do
    path ← canonicalize_path cwd name
    (w1, parent) ← kopen (some path) 0 v w
    some (create_in (f_path path (length path - 1)) permission parent w1)
