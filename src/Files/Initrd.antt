-- ===== src/Files/Initrd.antt =====
-- kernel/fs/initrd.c: the initial ram disk, whose headers are records.
pub mod Listed
use beryllium.Base.{
  ℕ, zero, suc, ◌+◌, ◌%◌, ◌^◌, Bool, true, false, Option, none, some, List, [], ◌∷◌, ltb, ◌==◌,
  if◌then◌else◌, get_elem?,
}
use beryllium.Strings.{strcmp}
use beryllium.Files.{
  VfsNode, Functions, initrd_functions, no_functions, file, directory, mountpoint,
}

-- `fileheader_t`
pub record FileHeader : Type 0 where
  pub name : List ℕ
  pub offset : ℕ
  pub length : ℕ

-- The variables of the file; the pointers are to what `initrd_init` has found and made, or none.
pub record Initrd : Type 0 where
  pub initrd_exists : ℕ
  pub initrd_startaddr : ℕ
  pub initrd_endaddr : ℕ
  pub headers : ℕ
  pub initfs_fileheaders : List FileHeader
  pub initrd_mountpoint : Option VfsNode
  pub initrd_nodes : List VfsNode

unfoldable pub initrd_set_location : (start end_addr : ℕ) → Initrd → Initrd
initrd_set_location start end_addr s = record s {
  initrd_startaddr = start;
  initrd_endaddr = end_addr;
  initrd_exists = 1;
}

-- `addr[0]=='I'` of the word at the start of the disk.
unfoldable pub initrd_verify : (word : ℕ) → ℕ
initrd_verify word = if word == b'I' then 1 else 0

-- The name and `ino` of what `initrd_readdir` returns.
unfoldable pub initrd_readdir : (index : ℕ) → Initrd → Option (List ℕ × ℕ)
initrd_readdir index s =
    if ltb index s.headers
    then elim (get_elem? s.initrd_nodes index) [ none ↦ none | some n ↦ some (n.name, n.inode) ]
    else none

-- The loop of `initrd_finddir` over as many nodes as there are headers.
unfoldable pub find_node : (rounds : ℕ) → (name : List ℕ) → List VfsNode → Option VfsNode
find_node zero name nodes = none
find_node (suc n) name [] = none
find_node (suc n) name (node ∷ nodes) =
    let rest = find_node n name nodes in if strcmp name node.name == 0 then some node else rest

unfoldable pub initrd_finddir : (name : List ℕ) → Initrd → Option VfsNode
initrd_finddir name s = find_node s.headers name s.initrd_nodes

-- `ramdisk0`
abbrev pub ramdisk0 : List ℕ
ramdisk0 = b'r' ∷ (b'a' ∷ (b'm' ∷ (b'd' ∷ (b'i' ∷ (b's' ∷ (b'k' ∷ (b'0' ∷ [])))))))

unfoldable pub mountpoint_node : VfsNode
mountpoint_node = record {
  name = ramdisk0;
  kind = 0;
  flags = directory + mountpoint;
  permissions = 1;
  inode = 0;
  length = 0;
  functions = initrd_functions;
}

-- The node for a header: what is not set is what `malloc` returned.
unfoldable pub fill_node : FileHeader → (i : ℕ) → VfsNode → VfsNode
fill_node header i node = record node {
  name = header.name;
  length = header.length;
  inode = i;
  flags = file;
  functions = no_functions;
}

unfoldable pub move_header : (startaddr : ℕ) → FileHeader → FileHeader
move_header startaddr header = record header { offset = (header.offset + startaddr) % 2 ^ 32 }

-- The loop of `initrd_init`, from `i` on: the headers, and the nodes for them, whose memory held `stale`.
unfoldable pub populate :
    (startaddr i : ℕ) (stale : ℕ → VfsNode) → List FileHeader → List FileHeader × List VfsNode
populate startaddr i stale [] = ([], [])
populate startaddr i stale (h ∷ hs) =
    let (moved, nodes) = populate startaddr (i + 1) stale hs in
    (move_header startaddr h ∷ moved, fill_node h i (stale i) ∷ nodes)

-- `files` are the headers behind the first one of the disk.
unfoldable pub initrd_init :
    (headers : ℕ) (files : List FileHeader) (stale : ℕ → VfsNode) → Initrd → Initrd
initrd_init headers files stale s =
    if s.initrd_exists == 0
    then s
    else (let (moved, nodes) = populate s.initrd_startaddr 0 stale files in
        record s {
          headers = headers;
          initfs_fileheaders = moved;
          initrd_mountpoint = some mountpoint_node;
          initrd_nodes = nodes;
        })
