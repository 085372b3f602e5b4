-- ===== src/Devices/DeviceTree.antt =====
-- kernel/device.c: the tree of the devices. A device is its address, and what `malloc` returns for a new one
-- is an argument. `none` is a read through NULL.
mod Inserted
mod Tests
use beryllium.Base.{
  ℕ, zero, suc, ◌+◌, ◌≡◌, ◌≢◌, refl, sym, ap, ◌∙◌, inl, inr, Bool, true, false, Option, none, some,
  ◌>>=◌, List, [], ◌∷◌, ◌++◌, arith, ◌==◌, if◌then◌else◌, Bool-cases, Option-cases,
}
use beryllium.Strings.{strcmp}
use beryllium.Trees.{
  Node, node, nil, cons, Tree, Place, value, node_at, put_last, insert_into, tree_create,
  tree_node_create, tree_set_root, tree_node_insert_child, tree_node_remove, tree_find,
  tree_node_find,
}

-- The names of the devices by address, the tree, and `has_inserted_staticially`.
pub record Manager : Type 0 where
  pub name : ℕ → List ℕ
  pub device_tree : Tree ℕ
  pub has_inserted : ℕ

unfoldable pub device_search_tree_comparator : (a b : ℕ) → Bool
device_search_tree_comparator a b = if a == b then true else false

unfoldable pub device_search_name_comparator : (name : ℕ → List ℕ) → (a : ℕ) (b : List ℕ) → Bool
device_search_name_comparator name a b = if strcmp (name a) b == 0 then true else false

unfoldable pub device_search_tree_node : (device : ℕ) → Manager → Option (Option Place)
device_search_tree_node device m = tree_find device_search_tree_comparator m.device_tree device

unfoldable pub device_search_node : (name : List ℕ) → Manager → Option (Option Place)
device_search_node name m = tree_find (device_search_name_comparator m.name) m.device_tree name

-- `result->value`
unfoldable pub device_search : (name : List ℕ) → Manager → Option ℕ
device_search name m = do
  result ← device_search_node name m
  p ← result
  r ← m.device_tree.root
  n ← node_at p r
  some (value n)

-- `res` may be NULL.
unfoldable pub insert_at : (device : ℕ) → (res : Option Place) → Manager → Option Manager
insert_at device none m = some m
insert_at device (some res) m = do
  t ← tree_node_insert_child res device m.device_tree
  some (record m { device_tree = t })

unfoldable pub device_manager_insert : (device parent : ℕ) → Manager → Option Manager
device_manager_insert device parent m = do
  res ← device_search_node (m.name parent) m
  insert_at device res m

unfoldable pub device_manager_remove : (device : ℕ) → Manager → Option Manager
device_manager_remove device m = do
  result ← device_search_tree_node device m
  p ← result
  t ← tree_node_remove p m.device_tree
  some (record m { device_tree = t })

unfoldable pub set_name : (device : ℕ) → (name : List ℕ) → Manager → Manager
set_name device name m = record m { name = λ a. if a == device then name else m.name a }

abbrev pub device_root : List ℕ
device_root =
    b'd'
    ∷ (b'e' ∷ (b'v' ∷ (b'i' ∷ (b'c' ∷ (b'e' ∷ (b'_' ∷ (b'r' ∷ (b'o' ∷ (b'o' ∷ (b't' ∷ []))))))))))

abbrev pub kernel_ns : List ℕ
kernel_ns = b'k' ∷ (b'e' ∷ (b'r' ∷ (b'n' ∷ (b'e' ∷ (b'l' ∷ (b'_' ∷ (b'n' ∷ (b's' ∷ []))))))))

-- `device_manager_insert(device, device_search(name))`
unfoldable pub insert_under : (name : List ℕ) → (device : ℕ) → Manager → Option Manager
insert_under name device m = do parent ← device_search name m; device_manager_insert device parent m

-- With `X86` defined; `ns` is the new `device_t`, the others are the drivers' devices.
unfoldable pub insert_kernel : (ns pit serial keyboard : ℕ) → Manager → Option Manager
insert_kernel ns pit serial keyboard m0 = do
  m1 ← insert_under device_root ns (set_name ns kernel_ns m0)
  m2 ← insert_under kernel_ns pit m1
  m3 ← insert_under kernel_ns serial m2
  m4 ← insert_under kernel_ns keyboard m3
  some (record m4 { has_inserted = 1 })

unfoldable pub device_manager_insert_kernel :
    (ns pit serial keyboard : ℕ) → Manager → Option Manager
device_manager_insert_kernel ns pit serial keyboard m =
    if m.has_inserted == 0 then insert_kernel ns pit serial keyboard m else some m

-- `root` is the new `device_t` of the root.
unfoldable pub device_manager_start : (root ns pit serial keyboard : ℕ) → Manager → Option Manager
device_manager_start root ns pit serial keyboard m =
    device_manager_insert_kernel ns pit serial keyboard
      (set_name root device_root (record m { device_tree = tree_set_root root tree_create }))
