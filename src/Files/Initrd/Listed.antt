-- ===== src/Files/Initrd/Listed.antt =====
-- kernel/fs/initrd.c: what is listed and found on the disk.
use beryllium.Base.{
  ℕ, zero, suc, ◌+◌, ◌≤◌, ◌<◌, ◌≡◌, ◌≢◌, refl, ◌∙◌, ap, inl, inr, none, some, List, [], ◌∷◌, arith,
  ◌==◌, Bool-cases, eq_of_==, lt→ltb, le→ltb, ne→==, get_elem?, length,
}
use beryllium.Strings.{strcmp}
use beryllium.Strings.Compare.{strcmp_refl}
use beryllium.Files.{VfsNode}
use beryllium.Files.Initrd.{
  FileHeader, Initrd, initrd_readdir, find_node, initrd_finddir, fill_node, populate, initrd_init,
}

populate-get_elem? :
    (startaddr k : ℕ) (stale : ℕ → VfsNode) (files : List FileHeader) (i : ℕ) (h : FileHeader)
    → get_elem? files i ≡ some h
    → get_elem? (populate startaddr k stale files).1 i ≡ some (fill_node h (k + i) (stale (k + i)))
unfolding populate
populate-get_elem? startaddr k stale [] i h e = absurd (cc e)
populate-get_elem? startaddr k stale (f ∷ fs) zero h e =
    let same : f ≡ h = cc e in rw same (ap (λ j. some (fill_node h j (stale j))) (omega arith))
populate-get_elem? startaddr k stale (f ∷ fs) (suc i) h e =
    populate-get_elem? startaddr (k + 1) stale fs i h e
    ∙ ap (λ j. some (fill_node h j (stale j))) (omega arith)

-- The node that is found has the name, and a node of that name is not passed by.
find_node-some :
    (n : ℕ) (name : List ℕ) (nodes : List VfsNode) (i : ℕ) (node : VfsNode)
    → i < n
    → get_elem? nodes i ≡ some node
    → strcmp name node.name ≡ 0
    → (j : ℕ) × (found : VfsNode) × (find_node n name nodes ≡ some found)
      × (get_elem? nodes j ≡ some found)
      × (j ≤ i)
      × (strcmp name found.name ≡ 0)
unfolding find_node
find_node-some zero name nodes i node h at same = absurd (omega (arith, h))
find_node-some (suc n) name [] i node h at same = absurd (cc at)
find_node-some (suc n) name (m ∷ nodes) zero node h at same =
    let here : m ≡ node = cc at in
    let found : strcmp name m.name ≡ 0 = rw here same in
    (0, m, rw found refl, refl, omega arith, found)
find_node-some (suc n) name (m ∷ nodes) (suc i) node h at same =
    elim (Bool-cases (strcmp name m.name == 0)) [
      | inl e ↦ (0, m, rw e refl, refl, omega arith, eq_of_== (strcmp name m.name) 0 e)
      | inr e ↦
          let (j, found, f, at_j, before, same_j) =
            find_node-some n name nodes i node (omega (arith, h)) at same in
          (suc j, found, rw e f, at_j, omega (arith, before), same_j)
    ]

get_elem?-lt :
    (files : List FileHeader) (i : ℕ) (h : FileHeader)
    → get_elem? files i ≡ some h
    → i < length files
get_elem?-lt [] i h e = absurd (cc e)
get_elem?-lt (f ∷ fs) zero h e = omega arith
get_elem?-lt (f ∷ fs) (suc i) h e = omega (arith, get_elem?-lt fs i h e)

-- After `initrd_init` of a disk with as many headers as it says, `initrd_readdir` lists each file by its
-- name and its index and returns NULL from their number on, and `initrd_finddir` finds for every name that is
-- listed a node of that name, at the index listed or before it.
pub initrd_init-listed :
    (files : List FileHeader) (stale : ℕ → VfsNode) (s : Initrd) (i k : ℕ) (h : FileHeader)
    → s.initrd_exists ≢ 0
    → get_elem? files i ≡ some h
    → let u = initrd_init (length files) files stale s in
      (initrd_readdir i u ≡ some (h.name, i))
      × (initrd_readdir (length files + k) u ≡ none)
      × ((j : ℕ) × (found : VfsNode) × (initrd_finddir h.name u ≡ some found)
          × (get_elem? u.initrd_nodes j ≡ some found)
          × (j ≤ i)
          × (strcmp h.name found.name ≡ 0))
unfolding initrd_init initrd_readdir initrd_finddir fill_node
initrd_init-listed files stale s i k h there at =
    let exists = ne→== s.initrd_exists 0 there in
    let node_at = populate-get_elem? s.initrd_startaddr 0 stale files i h at in
    let inside = get_elem?-lt files i h at in
    (
      rw (exists, lt→ltb i (length files) inside, node_at)
          (ap (λ j. some (h.name, j)) (omega arith)),
      rw (exists, le→ltb (length files + k) (length files) (omega arith)) refl,
      rw exists (
          find_node-some (length files) h.name (populate s.initrd_startaddr 0 stale files).1 i
            (fill_node h (0 + i) (stale (0 + i))) inside node_at (strcmp_refl h.name)),
    )
