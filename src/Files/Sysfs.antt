-- ===== src/Files/Sysfs.antt =====
-- kernel/fs/sysfs.c: the entries of the system directory.
use beryllium.Base.{
  ℕ, zero, suc, ◌<◌, ◌≡◌, ◌≢◌, refl, ◌⊎◌, inl, inr, false, Option, none, some, List, [], ◌∷◌, arith,
  ltb, ◌==◌, if◌then◌else◌, Bool-cases, eq_of_==, get_elem?, length,
}
use beryllium.Strings.{strcmp}
use beryllium.Files.{VfsNode, sysfs_entry, file}

-- `struct sys_entry`
pub record SysEntry : Type 0 where
  pub id : ℕ
  pub name : List ℕ

abbrev pub sys_entries : List SysEntry
sys_entries =
    (record { id = 1; name = b'c' ∷ (b'p' ∷ (b'u' ∷ [])) })
    ∷ ((record { id = 2; name = b'm' ∷ (b'e' ∷ (b'm' ∷ [])) })
        ∷ ((record { id = 3; name = b'u' ∷ (b'p' ∷ (b't' ∷ (b'i' ∷ (b'm' ∷ (b'e' ∷ []))))) })
            ∷ ((record {
              id = 4;
              name = b'v' ∷ (b'f' ∷ (b's' ∷ (b'i' ∷ (b'n' ∷ (b'i' ∷ (b't' ∷ []))))));
            })
                ∷ ((record {
                  id = 5;
                  name = b'v' ∷ (b'e' ∷ (b'r' ∷ (b's' ∷ (b'i' ∷ (b'o' ∷ (b'n' ∷ []))))));
                })
                    ∷ ((record {
                      id = 6;
                      name = b'r' ∷ (b'e' ∷ (b'l' ∷ (b'e' ∷ (b'a' ∷ (b's' ∷ (b'e' ∷ []))))));
                    })
                        ∷ ([]))))))

-- `sysfs_generic_create`
unfoldable pub sysfs_generic_create : (name : List ℕ) → VfsNode
sysfs_generic_create name = record {
  name = name;
  kind = file;
  flags = 0;
  permissions = 0;
  inode = 0;
  length = 0;
  functions = sysfs_entry;
}

-- The name and `ino` of what `readdir_sysfs` returns, `some none` for NULL; `none` is a read behind the entries.
unfoldable pub readdir_sysfs : (index : ℕ) → Option (Option (List ℕ × ℕ))
readdir_sysfs index =
    if ltb index 7
    then elim (get_elem? sys_entries index) [ none ↦ none | some e ↦ some (some (e.name, e.id)) ]
    else some none

-- The rounds of `finddir_sysfs` over the entries that are left; `none` is a read behind them.
unfoldable pub find_entry :
    (rounds : ℕ) → List SysEntry → (name : List ℕ) → Option (Option SysEntry)
find_entry zero es name = some none
find_entry (suc n) [] name = none
find_entry (suc n) (e ∷ es) name =
    let rest = find_entry n es name in if strcmp name e.name == 0 then some (some e) else rest

-- What a round that has found an entry makes of it, for `node`.
unfoldable pub entry_node : VfsNode → SysEntry → VfsNode
entry_node node e = record (sysfs_generic_create e.name) { inode = node.inode }

-- `finddir_sysfs`, of none for NULL.
unfoldable pub finddir_sysfs : VfsNode → (name : Option (List ℕ)) → Option (Option VfsNode)
finddir_sysfs node none = some none
finddir_sysfs node (some name) = elim (find_entry 7 sys_entries name) [
  | none ↦ none
  | some none ↦ some none
  | some (some e) ↦ some (some (entry_node node e))
]

-- A search in more rounds than there are entries.
abbrev IsSearched : List SysEntry → (name : List ℕ) → Option (Option SysEntry) → Type 0
IsSearched es name found =
    ((i : ℕ) × (e : SysEntry) × (get_elem? es i ≡ some e)
      × (strcmp name e.name ≡ 0)
      × (found ≡ some (some e)))
    ⊎ (((i : ℕ) (e : SysEntry) → get_elem? es i ≡ some e → strcmp name e.name ≢ 0) × (found ≡ none))

ne_of_== : (a b : ℕ) → (a == b) ≡ false → a ≢ b
ne_of_== a b h = ground arith

differ_from :
    (name : List ℕ) (e : SysEntry) (es : List SysEntry)
    → strcmp name e.name ≢ 0
    → ((i : ℕ) (d : SysEntry) → get_elem? es i ≡ some d → strcmp name d.name ≢ 0)
    → (i : ℕ) (d : SysEntry) → get_elem? (e ∷ es) i ≡ some d
    → strcmp name d.name ≢ 0
differ_from name e es ne differ zero d at = let same : e ≡ d = cc at in rw same at ne
differ_from name e es ne differ (suc i) d at = differ i d at

find_entry-IsSearched :
    (n : ℕ) (es : List SysEntry) (name : List ℕ)
    → length es < n
    → IsSearched es name (find_entry n es name)
unfolding find_entry
find_entry-IsSearched zero es name h = absurd (omega (arith, h))
find_entry-IsSearched (suc n) [] name h = inr (λ i e g. cc g, refl)
find_entry-IsSearched (suc n) (e ∷ es) name h = elim (Bool-cases (strcmp name e.name == 0)) [
  | inl same ↦ inl (0, e, refl, eq_of_== (strcmp name e.name) 0 same, rw same refl)
  | inr other ↦ elim (find_entry-IsSearched n es name (omega (arith, h))) [
    | inl (i, d, at, same, found) ↦ inl (suc i, d, at, same, rw other found)
    | inr (differ, found) ↦
        inr (differ_from name e es (ne_of_== (strcmp name e.name) 0 other) differ, rw other found)
  ]
]

-- What `finddir_sysfs` does with a name that is not NULL. For a name that an entry has, it makes a file of the
-- entry's name with the inode of the directory, and every other field cleared but its functions. For every other name
-- it reads behind the entries.
unfoldable pub IsFound : VfsNode → (name : List ℕ) → Option (Option VfsNode) → Type 0
IsFound node name found =
    ((i : ℕ) × (e : SysEntry) × (get_elem? sys_entries i ≡ some e)
      × (strcmp name e.name ≡ 0)
      × (found
          ≡ some (
              some (record {
                name = e.name;
                kind = 1;
                flags = 0;
                permissions = 0;
                inode = node.inode;
                length = 0;
                functions = sysfs_entry;
              }))))
    ⊎ (((i : ℕ) (e : SysEntry) → get_elem? sys_entries i ≡ some e → strcmp name e.name ≢ 0)
        × (found ≡ none))

find_entry-IsFound :
    (node : VfsNode) (name : List ℕ) → IsFound node name (finddir_sysfs node (some name))
unfolding finddir_sysfs IsFound entry_node sysfs_generic_create
find_entry-IsFound node name = elim (find_entry-IsSearched 7 sys_entries name (omega arith)) [
  | inl (i, e, at, same, found) ↦ inl (i, e, at, same, rw (finddir_sysfs, found) refl)
  | inr (differ, found) ↦ inr (differ, rw (finddir_sysfs, found) refl)
]

-- `finddir_sysfs` returns NULL for NULL. For a name that an entry has, it makes a node: a file of the entry's
-- name, with the inode of the directory. It never returns NULL for another name: it reads behind the entries, and so
-- does `readdir_sysfs` for index 6.
pub finddir_sysfs-entry :
    (node : VfsNode) (name : List ℕ)
    → (finddir_sysfs node none ≡ some none)
      × IsFound node name (finddir_sysfs node (some name))
      × (readdir_sysfs 6 ≡ none)
unfolding finddir_sysfs readdir_sysfs
finddir_sysfs-entry node name = (refl, find_entry-IsFound node name, refl)
