-- ===== src/Vfs/Open/Tests.antt =====
-- kernel/vfs.c: mounts and opens in a tree with a root and a device directory.
use beryllium.Base.{ℕ, ◌+◌, ◌≡◌, refl, none, some, List, [], ◌∷◌, ◌++◌, arith, drop}
use beryllium.Strings.{accepts, strspn, strpbrk, strtok_r, int_of_char, difference, strcmp}
use beryllium.Strings.Compare
use beryllium.Strings.Compare.{IsText}
use beryllium.Strings.Tokens.{flush, pieces_from, pieces, none_left, one_more}
use beryllium.Trees.{Node, node, nil, cons}
use beryllium.Trees.Count.{descendants}
use beryllium.Vfs.{
  pop, push, walk, each_token, is_relative, start, join_size, join, output, canonicalize_path,
}
use beryllium.Vfs.Canonical.{fold, resolve}
use beryllium.Vfs.Nodes.{Driver, is_directory, open_vfs, finddir_vfs}
use beryllium.Vfs.Mounts.{
  Entry, Vfs, root_name, word, skip, skips, chop, child_named, vfs_mount, search_from,
  get_mount_point, Found,
}
use beryllium.Vfs.Mounts.Words.{ended, IsWord, byte, buffer}
use beryllium.Vfs.Mounts.Mounted.{file_at, HasNames}
use beryllium.Vfs.Mounts.Mounting.{path_of, IsVfs, mounted, Outcome, vfs_mount-Outcome}
use beryllium.Vfs.Mounts.Prefixes.{IsLongest, IsMountPoint, get_mount_point-IsLongest}
use beryllium.Vfs.Open.{
  cwd, separators, search_on, dig, open_below, open_path, kopen, create_file_vfs,
}
use beryllium.Vfs.Open.Followed.{follow}
use beryllium.Vfs.Open.Opened.{IsFilename, kopen-follow, vfs_mount-kopen}
use beryllium.Vfs.Open.Created.{IsCreated, create_file_vfs-IsCreated}

-- `dev` and `x`
abbrev dev : List ℕ
dev = b'd' ∷ (b'e' ∷ (b'v' ∷ []))

abbrev x : List ℕ
x = b'x' ∷ []

-- `/dev/x` and `/x`
abbrev dev_x : List ℕ
dev_x = (b'/' ∷ dev) ++ (b'/' ∷ x)

abbrev slash_x : List ℕ
slash_x = b'/' ∷ x

-- Every node is a directory in which every name leads to node 7; opening one is counted.
abbrev driver : Driver ℕ ℕ
driver = record {
  kind = λ node. 2;
  read = λ node. none;
  write = λ node. none;
  open_node = λ node. some (λ flags opened. opened + 1);
  close = λ node. none;
  ioctl = λ node. none;
  readdir = λ node. none;
  finddir = λ node. some (λ name opened. (opened, some 7));
  create = λ node. some (λ name permission opened. opened + 100);
}

abbrev empty : Vfs ℕ
empty = record { vfs_tree = none; vfs_root_node = none }

abbrev top : Node (Entry ℕ)
top =
    node (record { name = root_name; file = some 1 })
      (cons (node (record { name = dev; file = some 5 }) nil) nil)

abbrev v : Vfs ℕ
v = record { vfs_tree = some (record { nodes = 2; root = some top }); vfs_root_node = some 1 }

dev-IsText : IsText dev
dev-IsText = Compare.one_more (omega arith) (omega arith) (
    Compare.one_more (omega arith) (omega arith)
      (Compare.one_more (omega arith) (omega arith) Compare.none_left))

v-IsVfs : IsVfs v
unfolding HasNames descendants file_at
v-IsVfs = record {
  tree = record { nodes = 2; root = some top };
  top = top;
  has_tree = refl;
  has_root = refl;
  names = (dev-IsText, tt, tt);
  counted = refl;
  shortcut = refl;
}

x-IsWord : IsWord x
x-IsWord = byte (omega arith) (omega arith) (omega arith) ended

dev-IsWord : IsWord dev
dev-IsWord = byte (omega arith) (omega arith) (omega arith) (
    byte (omega arith) (omega arith) (omega arith)
      (byte (omega arith) (omega arith) (omega arith) ended))

slash_x-IsFilename : IsFilename slash_x
slash_x-IsFilename = record {
  text =
      Compare.one_more (omega arith) (omega arith)
        (Compare.one_more (omega arith) (omega arith) Compare.none_left);
  short = omega arith;
}

dev_x-IsFilename : IsFilename dev_x
dev_x-IsFilename = record {
  text = Compare.one_more (omega arith) (omega arith) (
      Compare.one_more (omega arith) (omega arith) (
        Compare.one_more (omega arith) (omega arith)
          (Compare.one_more (omega arith) (omega arith) slash_x-IsFilename.text)));
  short = omega arith;
}

vfs_mount-Outcome_example :
    (u : Vfs ℕ) × (code : ℕ) × (vfs_mount (some (path_of (dev ∷ (x ∷ [])))) 9 v ≡ some (u, code))
    × Outcome 9 (dev ∷ (x ∷ [])) v u code
vfs_mount-Outcome_example =
    vfs_mount-Outcome 9 (dev ∷ (x ∷ [])) v v-IsVfs
      (one_more dev-IsWord (one_more x-IsWord none_left))

get_mount_point-IsLongest_example :
    (found : Found ℕ) × (get_mount_point (0 ∷ buffer (dev ∷ (x ∷ []))) 2 (buffer (dev ∷ (x ∷ []))) v
      ≡ some found)
    × IsLongest v (dev ∷ (x ∷ [])) found
get_mount_point-IsLongest_example =
    get_mount_point-IsLongest v (dev ∷ (x ∷ [])) v-IsVfs
      (one_more dev-IsWord (one_more x-IsWord none_left))

root_mounted : mounted [] v ≡ some 1
unfolding mounted file_at
root_mounted = refl

kopen-follow_example :
    (count : ℕ) × (node : ℕ) × IsMountPoint v (resolve cwd dev_x) count node
    × (kopen driver (some dev_x) 0 v 0
        ≡ some (follow driver 0 node (drop count (resolve cwd dev_x)) 0))
kopen-follow_example = kopen-follow driver 0 dev_x v 0 1 v-IsVfs root_mounted dev_x-IsFilename

x_free : mounted (resolve cwd slash_x) v ≡ none
unfolding mounted file_at child_named resolve fold walk push pieces pieces_from flush accepts
    is_relative strcmp difference int_of_char
x_free = refl

vfs_mount-kopen_example :
    (u : Vfs ℕ) × (vfs_mount (some (path_of (resolve cwd slash_x))) 9 v ≡ some (u, 0))
    × (kopen driver (some slash_x) 0 u 0 ≡ some (0, some 9))
vfs_mount-kopen_example = vfs_mount-kopen driver 0 9 slash_x v 0 v-IsVfs slash_x-IsFilename x_free

dev_x_path : canonicalize_path cwd dev_x ≡ some dev_x
unfolding canonicalize_path start each_token is_relative strtok_r strspn strpbrk accepts strcmp
    int_of_char difference pop push walk output join join_size
dev_x_path = refl

dev_x_opened : kopen driver (some dev_x) 0 v 0 ≡ some (1, some 7)
unfolding canonicalize_path start each_token is_relative strtok_r strspn strpbrk accepts strcmp
    int_of_char difference pop push walk output join join_size kopen open_path open_below dig
    search_on open_vfs finddir_vfs is_directory chop separators skip skips word get_mount_point
    search_from child_named
dev_x_opened = refl

create_file_vfs-IsCreated_example : create_file_vfs driver dev_x 4 v 0 ≡ some (101, 0)
unfolding IsCreated
create_file_vfs-IsCreated_example =
    create_file_vfs-IsCreated driver dev_x b'/' dev x 4 v 0 (1, some 7) v-IsVfs dev_x-IsFilename
      dev_x_path (byte (omega arith) (omega arith) (omega arith) ended) dev_x_opened
