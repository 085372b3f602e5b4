-- ===== src/Files/Tests.antt =====
-- kernel/fs: the device nodes and a ram disk of one file.
use beryllium.Base.{ℕ, ◌+◌, ◌≤◌, ◌≡◌, ◌>>=◌, inl, refl, none, some, List, [], ◌∷◌, arith, get_elem?}
use beryllium.Strings.{accepts, strspn, strpbrk, strtok_r, int_of_char, difference, strcmp}
use beryllium.Strings.Compare
use beryllium.Strings.Tokens.{flush, pieces_from, pieces}
use beryllium.Trees.{Node, node, nil, tree_create, tree_set_root, tree_node_create}
use beryllium.Trees.Count.{descendants}
use beryllium.Vfs.{
  pop, push, walk, each_token, is_relative, start, join_size, join, output, canonicalize_path,
}
use beryllium.Vfs.Canonical.{fold, resolve}
use beryllium.Vfs.Mounts.{
  Entry, Vfs, root_name, word, skip, skips, chop, vfs_init, child_named, set_file, walk_in,
  walk_from, new_entry, vfs_mount, mount_path, is_absolute, is_nul, search_from, get_mount_point,
}
use beryllium.Vfs.Mounts.Mounted.{file_at, HasNames}
use beryllium.Vfs.Mounts.Mounting.{IsVfs, mounted}
use beryllium.Vfs.Mounts.Prefixes.{IsMountPoint}
use beryllium.Vfs.Nodes.{Driver}
use beryllium.Vfs.Open.{cwd, separators, open_below, open_path, kopen}
use beryllium.Vfs.Open.Opened.{IsFilename}
use beryllium.Files.{
  VfsNode, null_device_create, dev_device_create, init_vfs_devices, dev_null, dev,
}
use beryllium.Files.Sysfs.{IsFound, readdir_sysfs, finddir_sysfs, finddir_sysfs-entry}
use beryllium.Files.Initrd.{
  FileHeader, Initrd, initrd_readdir, initrd_finddir, initrd_init, mountpoint_node,
}
use beryllium.Files.Initrd.Listed.{initrd_init-listed}
use beryllium.Files.Drivers.{driver, kopen-below_directory}

finddir_sysfs-entry_example :
    (finddir_sysfs dev_device_create none ≡ some none)
    × IsFound dev_device_create dev (finddir_sysfs dev_device_create (some dev))
    × (readdir_sysfs 6 ≡ none)
finddir_sysfs-entry_example = finddir_sysfs-entry dev_device_create dev

-- The file `x`.
abbrev x : FileHeader
x = record { name = b'x' ∷ []; offset = 128; length = 4 }

abbrev unread : Initrd
unread = record {
  initrd_exists = 1;
  initrd_startaddr = 4096;
  initrd_endaddr = 8192;
  headers = 0;
  initfs_fileheaders = [];
  initrd_mountpoint = none;
  initrd_nodes = [];
}

abbrev disk : Initrd
disk = initrd_init 1 (x ∷ []) (λ i. null_device_create) unread

initrd_init-listed_example :
    (initrd_readdir 0 disk ≡ some (b'x' ∷ [], 0))
    × (initrd_readdir (1 + 2) disk ≡ none)
    × ((j : ℕ) × (found : VfsNode) × (initrd_finddir (b'x' ∷ []) disk ≡ some found)
        × (get_elem? disk.initrd_nodes j ≡ some found)
        × (j ≤ 0)
        × (strcmp (b'x' ∷ []) found.name ≡ 0))
initrd_init-listed_example =
    initrd_init-listed (x ∷ []) (λ i. null_device_create) unread 0 2 x (omega arith) refl

-- The ram disk as the root, and the path of its file.
abbrev top : Node (Entry VfsNode)
top = node (record { name = root_name; file = some mountpoint_node }) nil

abbrev v : Vfs VfsNode
v = record {
  vfs_tree = some (record { nodes = 1; root = some top });
  vfs_root_node = some mountpoint_node;
}

abbrev slash_x : List ℕ
slash_x = b'/' ∷ (b'x' ∷ [])

v-IsVfs : IsVfs v
unfolding HasNames descendants file_at
v-IsVfs = record {
  tree = record { nodes = 1; root = some top };
  top = top;
  has_tree = refl;
  has_root = refl;
  names = tt;
  counted = refl;
  shortcut = refl;
}

slash_x-IsFilename : IsFilename slash_x
slash_x-IsFilename = record {
  text =
      Compare.one_more (omega arith) (omega arith)
        (Compare.one_more (omega arith) (omega arith) Compare.none_left);
  short = omega arith;
}

slash_x-resolve : resolve cwd slash_x ≡ (b'x' ∷ []) ∷ []
unfolding resolve fold walk push pieces pieces_from flush accepts is_relative strcmp difference
    int_of_char
slash_x-resolve = refl

root-IsMountPoint : IsMountPoint v ((b'x' ∷ []) ∷ []) 0 mountpoint_node
unfolding mounted file_at child_named
root-IsMountPoint = record {
  within = omega arith;
  here = refl;
  longest = λ i h l. let one : i ≡ 1 = omega (arith, h, l) in rw (one, child_named) refl;
}

-- A driver whose world is the number of calls that it got.
abbrev counting : Driver VfsNode ℕ
counting = record {
  kind = λ node. node.kind;
  read = λ node. none;
  write = λ node. none;
  open_node = λ node. some (λ flags calls. calls + 1);
  close = λ node. some (λ calls. calls + 1);
  ioctl = λ node. none;
  readdir = λ node. none;
  finddir = λ node. some (λ name calls. (calls + 1, some null_device_create));
  create = λ node. none;
}

kopen-below_directory_example : kopen counting (some slash_x) 0 v 5 ≡ some (5, none)
kopen-below_directory_example =
    kopen-below_directory counting (λ n. refl) 0 mountpoint_node slash_x v 5 0 (inl refl) v-IsVfs
      slash_x-IsFilename (rw slash_x-resolve root-IsMountPoint) (rw slash_x-resolve (omega arith))

-- The nodes that `init_vfs_devices` mounts are found, although nothing is mounted at the root.
null_opened :
    (init_vfs_devices (vfs_init (record { vfs_tree = none; vfs_root_node = none })) >>= λ u.
    kopen (driver disk 0) (some dev_null) 0 u [])
    ≡ some ([], some null_device_create)
unfolding canonicalize_path start each_token is_relative strtok_r strspn strpbrk accepts strcmp
    int_of_char difference pop push walk output join join_size kopen open_path open_below chop
    separators skip skips word get_mount_point search_from child_named init_vfs_devices vfs_init
    vfs_mount mount_path is_absolute is_nul walk_from walk_in set_file new_entry tree_create
    tree_set_root tree_node_create
null_opened = refl
