-- ===== src/LinkedList/Tests.antt =====
-- kernel/lib/list.c: a list of three nodes.
use beryllium.Base.{ℕ, ◌≡◌, refl, [], ◌∷◌, ◌++◌, some, arith, ◌==◌, if◌then◌else◌}
use beryllium.LinkedList.{
  Node, Store, list_append, list_pop, list_find, find_from, list_append_after, link_after, set_next,
  set_prev,
}
use beryllium.LinkedList.Append.{IsList, list_append-IsList}
use beryllium.LinkedList.Pop.{list_pop-IsList}

abbrev nodes : ℕ → Node
nodes a =
    if a == 100
    then record { next = 300; prev = 0; value = 1 }
    else if a == 300
    then record { next = 200; prev = 100; value = 2 }
    else if a == 200
    then record { next = 0; prev = 300; value = 3 }
    else record { next = 99; prev = 98; value = 4 }

abbrev store : Store
store = record { nodes = nodes; list = record { head = 100; tail = 200; length = 3 } }

store-IsList : IsList store (100 ∷ (300 ∷ (200 ∷ [])))
store-IsList = record {
  linked = (refl, omega arith, (refl, omega arith, (refl, omega arith, refl)));
  back = (refl, (refl, (refl, tt)));
  apart = ((omega arith, (omega arith, tt)), ((omega arith, tt), (tt, tt)));
  last = refl;
  size = refl;
}

list_append-IsList_example :
    IsList (list_append 400 store) ((100 ∷ (300 ∷ (200 ∷ []))) ++ (400 ∷ []))
    × ((x : ℕ) → ((list_append 400 store).nodes x).value ≡ (store.nodes x).value)
list_append-IsList_example =
    list_append-IsList 400 store (100 ∷ (300 ∷ (200 ∷ []))) store-IsList (omega arith)
      (omega arith, (omega arith, (omega arith, tt)))

list_pop-IsList_example : ((list_pop store).1 ≡ 200) × IsList (list_pop store).0 (100 ∷ (300 ∷ []))
list_pop-IsList_example = list_pop-IsList 200 store (100 ∷ (300 ∷ [])) store-IsList

found : list_find 4 2 store ≡ some 300
unfolding list_find find_from
found = refl

-- A node that `malloc` did not clear and that comes behind the last one keeps the link that it had.
stale_link : ((list_append_after 200 400 store).nodes 400).next ≡ 99
unfolding list_append_after link_after set_next set_prev
stale_link = refl
