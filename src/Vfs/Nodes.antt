-- ===== src/Vfs/Nodes.antt =====
-- kernel/vfs.c: the calls of the functions of a `vfs_node_t`. What those functions do, the drivers' code, is a
-- parameter. A node is what a pointer to it points to, and is copied as `kopen` clones it.
use beryllium.Base.{ℕ, ◌/◌, ◌%◌, Bool, Option, none, some, List, ◌==◌, if◌then◌else◌}

-- The type of a node and the functions it has, or none for NULL. `W` is all that they can change.
pub record Driver (F W : Type 0) : Type 0 where
  pub kind : F → ℕ
  pub read : F → Option ((offset size : ℕ) → W → W × ℕ)
  pub write : F → Option ((offset size : ℕ) → (buffer : List ℕ) → W → W × ℕ)
  pub open_node : F → Option ((flags : ℕ) → W → W)
  pub close : F → Option (W → W)
  pub ioctl : F → Option (W → W)
  pub readdir : F → Option ((index : ℕ) → W → W × Option (List ℕ))
  pub finddir : F → Option ((name : List ℕ) → W → W × Option F)
  pub create : F → Option ((name : List ℕ) (permission : ℕ) → W → W)

module _ {F W : Type 0} (driver : Driver F W) where
  unfoldable pub read_vfs : F → (offset size : ℕ) → W → W × ℕ
  read_vfs node offset size w = elim (driver.read node) [
    | none ↦ (w, 0)
    | some read ↦ read offset size w
  ]

  unfoldable pub write_vfs : F → (offset size : ℕ) → (buffer : List ℕ) → W → W × ℕ
  write_vfs node offset size buffer w = elim (driver.write node) [
    | none ↦ (w, 0)
    | some write ↦ write offset size buffer w
  ]

  unfoldable pub open_vfs : F → (flags : ℕ) → W → W
  open_vfs node flags w = elim (driver.open_node node) [ none ↦ w | some f ↦ f flags w ]

  unfoldable pub ioctl_vfs : F → W → W
  ioctl_vfs node w = elim (driver.ioctl node) [ none ↦ w | some ioctl ↦ ioctl w ]

  -- `at_root` is whether the pointer to the node is `vfs_root_node`.
  unfoldable pub close_vfs : (at_root : Bool) → F → W → W
  close_vfs at_root node w =
      if at_root then w else elim (driver.close node) [ none ↦ w | some close ↦ close w ]

  -- `node->type & VFS_DIRECTORY`
  unfoldable pub is_directory : F → Bool
  is_directory node = driver.kind node / 2 % 2 == 1

  unfoldable pub readdir_vfs : F → (index : ℕ) → W → W × Option (List ℕ)
  readdir_vfs node index w =
      if is_directory node
      then elim (driver.readdir node) [ none ↦ (w, none) | some readdir ↦ readdir index w ]
      else (w, none)

  unfoldable pub finddir_vfs : F → (name : List ℕ) → W → W × Option F
  finddir_vfs node name w =
      if is_directory node
      then elim (driver.finddir node) [ none ↦ (w, none) | some finddir ↦ finddir name w ]
      else (w, none)
