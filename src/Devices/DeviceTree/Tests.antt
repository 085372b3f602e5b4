-- ===== src/Devices/DeviceTree/Tests.antt =====
-- kernel/device.c: a tree of two devices.
use beryllium.Base.{ℕ, ◌≡◌, ◌≢◌, ◌⊎◌, refl, none, some, List, [], ◌∷◌, ◌==◌, if◌then◌else◌}
use beryllium.Strings.{strcmp}
use mathlib.Core.List.{Mem}
use beryllium.Trees.{Node, node, nil, Place, value, node_at, insert_into}
use beryllium.Trees.Search.{values}
use beryllium.Devices.DeviceTree.{
  Manager, device_root, device_search, device_search_node, device_manager_insert,
}
use beryllium.Devices.DeviceTree.Inserted.{device_manager_insert-device_search}

-- Device 1 is the root, and the name of every other device is `pit`.
abbrev names : ℕ → List ℕ
names a = if a == 1 then device_root else b'p' ∷ (b'i' ∷ (b't' ∷ []))

abbrev manager : Manager
manager = record {
  name = names;
  device_tree = record { nodes = 1; root = some (node 1 nil) };
  has_inserted = 0;
}

device_manager_insert-device_search_example :
    ((device_search (names 1) manager ≡ none)
      × ((a : ℕ) → Mem a (values (node 1 nil)) → strcmp (names a) (names 1) ≢ 0)
      × (device_manager_insert 2 1 manager ≡ some manager))
    ⊎ ((p : Place) × (n : Node ℕ) × (u : Manager) × (s : Node ℕ) × (a : ℕ) × (device_search_node
            (names 1)
            manager
          ≡ some (some p))
        × (node_at p (node 1 nil) ≡ some n)
        × (strcmp (names (value n)) (names 1) ≡ 0)
        × (device_manager_insert 2 1 manager ≡ some u)
        × (u.device_tree.root ≡ some s)
        × (node_at p s ≡ some (insert_into (node 2 nil) n))
        × (device_search (names 2) u ≡ some a)
        × (strcmp (names a) (names 2) ≡ 0))
device_manager_insert-device_search_example =
    device_manager_insert-device_search 2 1 manager (node 1 nil) refl
