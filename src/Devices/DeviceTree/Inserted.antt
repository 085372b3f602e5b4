-- ===== src/Devices/DeviceTree/Inserted.antt =====
-- kernel/device.c: an inserted device is found, and what the kernel's own insertions make.
use mathlib.Core.Logic.Or
use mathlib.Core.List.{Mem, mem-cons, not-mem-nil}
use beryllium.Base.{
  ==_iff, ℕ, zero, suc, ◌+◌, ◌%◌, ◌^◌, ◌≡◌, ◌≢◌, ◌⊎◌, refl, sym, inl, inr, Bool, true, none, some,
  List, [], ◌∷◌, ◌++◌, arith, ◌==◌, if◌then◌else◌, Bool-cases, ne→==, eq_of_==,
}
use beryllium.Strings.{strcmp, difference, int_of_char}
use beryllium.Strings.Compare.{strcmp_refl}
use beryllium.Trees.{
  Node, node, Nodes, nil, cons, Place, value, node_at, node_in, change_at, put_last, insert_into,
  tree_create, tree_node_create, tree_set_root, tree_node_insert_child, tree_node_insert_child_node,
  tree_find, tree_node_find, find_in,
}
use beryllium.Trees.Count.{change_at-some}
use beryllium.Trees.Search.{values, values_in, first, tree_node_find-IsFirst, tree_find-root}
use beryllium.Devices.DeviceTree.{
  Manager, device_search_name_comparator, device_search_node, device_search, insert_at,
  device_manager_insert, set_name, device_root, kernel_ns, insert_under, insert_kernel,
  device_manager_insert_kernel, device_manager_start,
}

self_eq : (n : ℕ) → (n == n) ≡ true
self_eq n = ground arith

module _ {S : Type 0} (comparator : ℕ → S → Bool) (sought : S) where
  -- Without a match among some values, none is among a part of them.
  first-left :
      (xs ys : List ℕ)
      → first comparator sought (xs ++ ys) ≡ none
      → first comparator sought xs ≡ none
  unfolding first
  first-left [] ys e = refl
  first-left (x ∷ xs) ys e = elim (Bool-cases (comparator x sought)) [
    | inl h ↦ absurd (cc (rw h at e))
    | inr h ↦ rw h (first-left xs ys (rw h at e))
  ]

  first-right :
      (xs ys : List ℕ)
      → first comparator sought (xs ++ ys) ≡ none
      → first comparator sought ys ≡ none
  unfolding first
  first-right [] ys e = e
  first-right (x ∷ xs) ys e = elim (Bool-cases (comparator x sought)) [
    | inl h ↦ absurd (cc (rw h at e))
    | inr h ↦ first-right xs ys (rw h at e)
  ]

  mutual
    unfolding values node_at

    first-node_at :
        (p : Place) (n m : Node ℕ)
        → node_at p n ≡ some m
        → first comparator sought (values n) ≡ none
        → first comparator sought (values m) ≡ none
    first-node_at [] n m at e = let same : n ≡ m = cc at in rw (sym same) e
    first-node_at (i ∷ p) (node a cs) m at e =
        first-node_in i p cs m at (first-right (a ∷ []) (values_in cs) e)

    first-node_in :
        (i : ℕ) (p : Place) (cs : Nodes ℕ) (m : Node ℕ)
        → node_in i p cs ≡ some m
        → first comparator sought (values_in cs) ≡ none
        → first comparator sought (values m) ≡ none
    first-node_in i p nil m at e = absurd (cc at)
    first-node_in zero p (cons c cs) m at e =
        first-node_at p c m at (first-left (values c) (values_in cs) e)
    first-node_in (suc i) p (cons c cs) m at e =
        first-node_in i p cs m at (first-right (values c) (values_in cs) e)

  first-put_last :
      (a : ℕ) (cs : Nodes ℕ)
      → comparator a sought ≡ true
      → first comparator sought (values_in (put_last (node a nil) cs)) ≢ none
  unfolding values put_last first
  first-put_last a nil h e = absurd (cc (rw h at e))
  first-put_last a (cons c cs) h e =
      first-put_last a cs h (first-right (values c) (values_in (put_last (node a nil) cs)) e)

  first-insert_into :
      (a : ℕ) (n : Node ℕ)
      → comparator a sought ≡ true
      → first comparator sought (values (insert_into (node a nil) n)) ≢ none
  unfolding values insert_into
  first-insert_into a (node b cs) h e =
      first-put_last a cs h (first-right (b ∷ []) (values_in (put_last (node a nil) cs)) e)

  first-accepts :
      (xs : List ℕ) (a : ℕ) → first comparator sought xs ≡ some a → comparator a sought ≡ true
  unfolding first
  first-accepts [] a e = absurd (cc e)
  first-accepts (x ∷ xs) a e = elim (Bool-cases (comparator x sought)) [
    | inl h ↦ let same : x ≡ a = cc (rw h at e) in rw (sym same) h
    | inr h ↦ first-accepts xs a (rw h at e)
  ]

-- From the device that holds the drivers' to the last of those.
unfoldable pub kernel_tree : (root ns pit serial keyboard : ℕ) → Node ℕ
kernel_tree root ns pit serial keyboard = node root (
    cons (node ns (cons (node pit nil) (cons (node serial nil) (cons (node keyboard nil) nil))))
      nil)

-- With two different addresses from `malloc`, `device_manager_start` makes the tree of the root, the
-- kernel's namespace in it, and the three drivers' devices in that, in their order, and counts 5 nodes.
-- Its second call changes nothing of the drivers, since they are inserted only once.
pub device_manager_start-kernel_tree :
    (root ns pit serial keyboard : ℕ) (m : Manager)
    → root ≢ ns
    → m.has_inserted ≡ 0
    → (u : Manager) × (device_manager_start root ns pit serial keyboard m ≡ some u)
      × (u.device_tree
          ≡ record { nodes = 5; root = some (kernel_tree root ns pit serial keyboard) })
      × (device_manager_insert_kernel ns pit serial keyboard u ≡ some u)
      × (device_search device_root u ≡ some root)
      × (device_search kernel_ns u ≡ some ns)
unfolding device_manager_start device_manager_insert_kernel insert_kernel insert_under device_search
    device_search_node device_search_name_comparator tree_find tree_node_find find_in strcmp
    difference int_of_char device_manager_insert insert_at tree_node_insert_child
    tree_node_insert_child_node tree_node_create insert_into put_last tree_set_root tree_create
    node_at change_at set_name kernel_tree
device_manager_start-kernel_tree root ns pit serial keyboard m ne h =
    let ne1 = ne→== root ns ne in
    (
      record {
        name = λ a. if a == ns then kernel_ns else if a == root then device_root else m.name a;
        device_tree = record { nodes = 5; root = some (kernel_tree root ns pit serial keyboard) };
        has_inserted = 1;
      },
      simp (h, ne1, self_eq root, self_eq ns) refl,
      refl,
      refl,
      simp (ne1, self_eq root) refl,
      simp (ne1, self_eq root, self_eq ns) refl,
    )

name_comparator_self :
    (name : ℕ → List ℕ) (d : ℕ) → device_search_name_comparator name d (name d) ≡ true
unfolding device_search_name_comparator
name_comparator_self name d = rw (strcmp_refl (name d)) refl

name_comparator-strcmp :
    (name : ℕ → List ℕ) (a : ℕ) (s : List ℕ)
    → device_search_name_comparator name a s ≡ true
    → strcmp (name a) s ≡ 0
unfolding device_search_name_comparator
name_comparator-strcmp name a s h = elim (Bool-cases (strcmp (name a) s == 0)) [
  | inl e ↦ eq_of_== (strcmp (name a) s) 0 e
  | inr e ↦ absurd (cc (rw e at h))
]

-- Without a match, every name differs.
differ_from :
    (name : ℕ → List ℕ) (sought : List ℕ) (xs : List ℕ)
    → first (device_search_name_comparator name) sought xs ≡ none
    → (a : ℕ) → Mem a xs
    → strcmp (name a) sought ≢ 0
unfolding first device_search_name_comparator
differ_from name sought [] e a mem = absurd (not-mem-nil mem)
differ_from name sought (x ∷ xs) e a mem = elim (Bool-cases (strcmp (name x) sought == 0)) [
  | inl h ↦ absurd (cc (rw h at e))
  | inr h ↦ λ same.
      Or.elim (λ x y. absurd x) (mem-cons.0 mem)
        (λ eq. cc (h, (==_iff (strcmp (name x) sought) 0).1 (rw eq at same)))
        (λ m. differ_from name sought xs (rw h at e) a m same)
]

-- The search for the name of a device that a node has got as its last child.
search_inserted :
    (name : ℕ → List ℕ) (d : ℕ) (m : Manager) (p : Place) (r n : Node ℕ)
    → m.name ≡ name
    → m.device_tree.root ≡ some r
    → node_at p r ≡ some (insert_into (node d nil) n)
    → (a : ℕ) × (device_search (name d) m ≡ some a) × (strcmp (name a) (name d) ≡ 0)
unfolding device_search device_search_node
search_inserted name d m p r n named e at =
    let comparator = device_search_name_comparator name in
    elim (tree_node_find-IsFirst comparator (name d) r) [
      | inl (f, g) ↦ absurd (
          first-insert_into comparator (name d) d n (name_comparator_self name d)
            (first-node_at comparator (name d) p r (insert_into (node d nil) n) at g))
      | inr (q, l, f, at_q, g) ↦ (
        value l,
        simp (named, tree_find-root comparator (name d) m.device_tree r e, e, f, at_q) refl,
        name_comparator-strcmp name (value l) (name d)
            (first-accepts comparator (name d) (values r) (value l) g),
      )
    ]

-- In a tree with a root, `device_manager_insert` leaves everything as it is where no device has the name of
-- the parent. Otherwise `device_search_node` finds a device of that name, and the inserted device becomes its last
-- child. `device_search` for the name of the inserted device then returns a device of that name.
pub device_manager_insert-device_search :
    (device parent : ℕ) (m : Manager) (r : Node ℕ)
    → m.device_tree.root ≡ some r
    → ((device_search (m.name parent) m ≡ none)
        × ((a : ℕ) → Mem a (values r) → strcmp (m.name a) (m.name parent) ≢ 0)
        × (device_manager_insert device parent m ≡ some m))
      ⊎ ((p : Place) × (n : Node ℕ) × (u : Manager) × (s : Node ℕ) × (a : ℕ) × (device_search_node
              (m.name parent)
              m
            ≡ some (some p))
          × (node_at p r ≡ some n)
          × (strcmp (m.name (value n)) (m.name parent) ≡ 0)
          × (device_manager_insert device parent m ≡ some u)
          × (u.device_tree.root ≡ some s)
          × (node_at p s ≡ some (insert_into (node device nil) n))
          × (device_search (m.name device) u ≡ some a)
          × (strcmp (m.name a) (m.name device) ≡ 0))
unfolding device_search device_search_node device_manager_insert insert_at tree_node_insert_child
    tree_node_insert_child_node tree_node_create
device_manager_insert-device_search device parent m r e =
    let search =
      tree_find-root (device_search_name_comparator m.name) (m.name parent) m.device_tree r e in
    elim (tree_node_find-IsFirst (device_search_name_comparator m.name) (m.name parent) r) [
      | inl (f, g) ↦ inl (
        simp (search, f) refl,
        differ_from m.name (m.name parent) (values r) g,
        simp (search, f) refl,
      )
      | inr (p, n, f, at, g) ↦
          let (s, made, at_s) =
            change_at-some (λ n. some (insert_into (node device nil) n)) 0 0 p r n
              (insert_into (node device nil) n) at refl in
          let u : Manager = record m {
            device_tree = record { nodes = (m.device_tree.nodes + 1) % 2 ^ 32; root = some s };
          } in
          let (a, found, same) = search_inserted m.name device u p s n refl refl at_s in
          let named = name_comparator-strcmp m.name (value n) (m.name parent) (
            first-accepts (device_search_name_comparator m.name) (m.name parent) (values r)
              (value n) g) in
          inr (
            p,
            n,
            u,
            s,
            a,
            simp (search, f) refl,
            at,
            named,
            simp (search, f, e, made) refl,
            refl,
            at_s,
            found,
            same,
          )
    ]
