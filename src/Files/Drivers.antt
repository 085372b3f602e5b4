-- ===== src/Files/Drivers.antt =====
-- kernel/fs: the functions of the nodes as drivers of the file system, and what `kopen` makes of them.
use beryllium.Base.{
  ℕ, ◌<◌, ◌≡◌, refl, ap, ◌∙◌, ◌⊎◌, inl, inr, Bool, true, false, Option, none, some, List, [], ◌∷◌,
  arith, length, length-drop, drop, if◌then◌else◌,
}
use beryllium.Vfs.Canonical.{resolve}
use beryllium.Vfs.Nodes.{Driver, is_directory, finddir_vfs}
use beryllium.Vfs.Mounts.{Vfs}
use beryllium.Vfs.Mounts.Mounting.{IsVfs}
use beryllium.Vfs.Mounts.Prefixes.{IsMountPoint}
use beryllium.Vfs.Open.{cwd, kopen}
use beryllium.Vfs.Open.Followed.{follow}
use beryllium.Vfs.Open.Opened.{IsFilename, kopen-IsMountPoint}
use beryllium.Files.{
  VfsNode, Functions, null_functions, zero_functions, serial_functions, dev_functions,
  sysfs_functions, sysfs_entry, initrd_functions, no_functions, device_create, dev_device_create,
  write_serial,
}
use beryllium.Files.Initrd.{Initrd, initrd_readdir, initrd_finddir, mountpoint_node}

-- The open and close functions of the devices do nothing.
abbrev has_open : Functions → Bool
has_open null_functions = true
has_open zero_functions = true
has_open serial_functions = true
has_open dev_functions = true
has_open sysfs_functions = false
has_open sysfs_entry = false
has_open initrd_functions = false
has_open no_functions = false

-- `name` of a directory entry.
abbrev entry_name : Option (List ℕ × ℕ) → Option (List ℕ)
entry_name none = none
entry_name (some (name, ino)) = some name

-- With the disk and with what a call of `write_serial` returns, which has no `return`. What changes are the bytes
-- that `serial_write` has got. Sysfs is mounted nowhere, and its directory functions, which can fail, are in
-- Files/Sysfs.
module _ (disk : Initrd) (stray : ℕ) where
  unfoldable pub read_of : Functions → Option ((offset size : ℕ) → List ℕ → List ℕ × ℕ)
  read_of null_functions = some (λ offset size out. (out, 0))
  read_of zero_functions = some (λ offset size out. (out, 0))
  read_of serial_functions = some (λ offset size out. (out, 0))
  read_of dev_functions = some (λ offset size out. (out, 0))
  read_of sysfs_functions = some (λ offset size out. (out, size))
  read_of sysfs_entry = some (λ offset size out. (out, size))
  read_of initrd_functions = none
  read_of no_functions = none

  unfoldable pub write_of :
      Functions → Option ((offset size : ℕ) → (buffer : List ℕ) → List ℕ → List ℕ × ℕ)
  write_of null_functions = some (λ offset size buffer out. (out, 0))
  write_of zero_functions = some (λ offset size buffer out. (out, 0))
  write_of serial_functions =
      some (λ offset size buffer out. (write_serial size 0 buffer out, stray))
  write_of dev_functions = some (λ offset size buffer out. (out, 0))
  write_of sysfs_functions = none
  write_of sysfs_entry = none
  write_of initrd_functions = none
  write_of no_functions = none

  unfoldable pub readdir_of : Functions → Option ((index : ℕ) → List ℕ → List ℕ × Option (List ℕ))
  readdir_of initrd_functions = some (λ index out. (out, entry_name (initrd_readdir index disk)))
  readdir_of _ = none

  unfoldable pub finddir_of :
      Functions → Option ((name : List ℕ) → List ℕ → List ℕ × Option VfsNode)
  finddir_of initrd_functions = some (λ name out. (out, initrd_finddir name disk))
  finddir_of _ = none

  unfoldable pub driver : Driver VfsNode (List ℕ)
  driver = record {
    kind = λ node. node.kind;
    read = λ node. read_of node.functions;
    write = λ node. write_of node.functions;
    open_node = λ node. if has_open node.functions then some (λ flags out. out) else none;
    close = λ node. if has_open node.functions then some (λ out. out) else none;
    ioctl = λ node. none;
    readdir = λ node. readdir_of node.functions;
    finddir = λ node. finddir_of node.functions;
    create = λ node. none;
  }

-- For any driver of the nodes, which finds the `type` of a node in the node.
module _ {W : Type 0} (driver : Driver VfsNode W)
    (kinds : (n : VfsNode) → driver.kind n ≡ n.kind) where
  finddir_vfs-none :
      (node : VfsNode) (name : List ℕ) (w : W)
      → node.kind ≡ 0
      → finddir_vfs driver node name w ≡ (w, none)
  unfolding finddir_vfs is_directory
  finddir_vfs-none node name w e = rw (finddir_vfs, kinds node, e) refl

  follow-none :
      (flags : ℕ) (node : VfsNode) (left : List (List ℕ)) (w : W)
      → node.kind ≡ 0
      → 0 < length left
      → follow driver flags node left w ≡ (w, none)
  unfolding follow
  follow-none flags node [] w e h = absurd (omega (arith, h))
  follow-none flags node (x ∷ xs) w e h =
      rw (follow, finddir_vfs-none node x w e) (ap (λ r. (r.0, none)) (finddir_vfs-none node x w e))

  -- `kopen` returns NULL for every name that goes on behind the root of the ram disk or the directory of the
  -- devices, where that is mounted: neither node has the `type` of a directory. Whatever the functions of the nodes
  -- change when they are called, it is as before: none of them is called.
  pub kopen-below_directory :
      (flags : ℕ) (node : VfsNode) (name : List ℕ) (v : Vfs VfsNode) (w : W) (count : ℕ)
      → (node ≡ mountpoint_node) ⊎ (node ≡ dev_device_create)
      → IsVfs v
      → IsFilename name
      → IsMountPoint v (resolve cwd name) count node
      → count < length (resolve cwd name)
      → kopen driver (some name) flags v w ≡ some (w, none)
  unfolding mountpoint_node dev_device_create device_create
  kopen-below_directory flags node name v w count either h filename at behind =
      let no_type : node.kind ≡ 0 = elim either [
        | inl e ↦ ap (λ n. n.kind) e
        | inr e ↦ ap (λ n. n.kind) e
      ] in
      kopen-IsMountPoint driver flags name v w count node h filename at
      ∙ ap some (
          follow-none flags node (drop count (resolve cwd name)) w no_type
            (omega (arith, length-drop count (resolve cwd name), behind)))
