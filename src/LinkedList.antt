-- ===== src/LinkedList.antt =====
-- kernel/lib/list.c: doubly linked lists. A node is its address, 0 for NULL; what `malloc` returns is an argument.
-- `none` is an access through NULL, or rounds that have run out.
pub mod Append
pub mod Pop
pub mod Copy
mod Tests
use beryllium.Base.{
  ℕ, zero, suc, ◌+◌, ◌-◌, ◌%◌, ◌^◌, Bool, true, false, Option, none, some, ◌>>=◌, ltb, ◌==◌,
  if◌then◌else◌,
}

-- `list_node_t`
pub record Node : Type 0 where
  pub next : ℕ
  pub prev : ℕ
  pub value : ℕ

-- `list_t`
pub record LinkedList : Type 0 where
  pub head : ℕ
  pub tail : ℕ
  pub length : ℕ

-- A list and the nodes in memory.
pub record Store : Type 0 where
  pub nodes : ℕ → Node
  pub list : LinkedList

unfoldable pub set_next : (node v : ℕ) → (ℕ → Node) → ℕ → Node
set_next node v nodes a = if a == node then record (nodes a) { next = v } else nodes a

unfoldable pub set_prev : (node v : ℕ) → (ℕ → Node) → ℕ → Node
set_prev node v nodes a = if a == node then record (nodes a) { prev = v } else nodes a

unfoldable pub list_create : LinkedList
list_create = record { head = 0; tail = 0; length = 0 }

abbrev longer : LinkedList → ℕ
longer l = (l.length + 1) % 2 ^ 32

unfoldable pub list_append : (node : ℕ) → Store → Store
list_append node s =
    let n1 = set_next node 0 s.nodes in
    if s.list.tail == 0
    then record {
      nodes = set_prev node 0 n1;
      list = record { head = node; tail = node; length = longer s.list };
    }
    else record {
      nodes = set_prev node s.list.tail (set_next s.list.tail node n1);
      list = record s.list { tail = node; length = longer s.list };
    }

-- The node that `list_insert` and `list_insert_after` make of what `malloc` returned.
unfoldable pub fresh : (node item : ℕ) → (ℕ → Node) → ℕ → Node
fresh node item nodes a = if a == node then record { next = 0; prev = 0; value = item } else nodes a

unfoldable pub list_insert : (node item : ℕ) → Store → Store
list_insert node item s = list_append node (record s { nodes = fresh node item s.nodes })

-- `before` is not NULL, and the list is not empty.
unfoldable pub link_after : (before node : ℕ) → Store → Store
link_after before node s =
    let last = before == s.list.tail in
    let n1 = set_prev (s.nodes before).next node s.nodes in
    let n2 = if last then s.nodes else set_next node (n1 before).next n1 in
    record {
      nodes = set_next before node (set_prev node before n2);
      list = record s.list { tail = if last then node else s.list.tail; length = longer s.list };
    }

unfoldable pub list_append_after : (before node : ℕ) → Store → Store
list_append_after before node s =
    if s.list.tail == 0
    then list_append node s
    else if before == 0
    then record {
      nodes = set_prev s.list.head node (set_next node s.list.head s.nodes);
      list = record s.list { head = node; length = longer s.list };
    }
    else link_after before node s

unfoldable pub list_insert_after : (before node item : ℕ) → Store → Store
list_insert_after before node item s =
    list_append_after before node (record s { nodes = fresh node item s.nodes })

-- `foreach` from `node` on; the result is NULL if no node has the value.
unfoldable pub find_from : (rounds node value : ℕ) → (ℕ → Node) → Option ℕ
find_from zero node value nodes = none
find_from (suc n) node value nodes =
    let rest = find_from n (nodes node).next value nodes in
    if node == 0 then some 0 else if (nodes node).value == value then some node else rest

unfoldable pub list_find : (rounds value : ℕ) → Store → Option ℕ
list_find rounds value s = find_from rounds s.list.head value s.nodes

-- -1 is its bit pattern.
unfoldable pub index_from : (rounds node i value : ℕ) → (ℕ → Node) → Option ℕ
index_from zero node i value nodes = none
index_from (suc n) node i value nodes =
    let rest = index_from n (nodes node).next ((i + 1) % 2 ^ 32) value nodes in
    if node == 0 then some (2 ^ 32 - 1) else if (nodes node).value == value then some i else rest

unfoldable pub list_index_of : (rounds value : ℕ) → Store → Option ℕ
list_index_of rounds value s = index_from rounds s.list.head 0 value s.nodes

-- The links of the neighbours of a node that goes.
unfoldable pub unlink : (node : ℕ) → (ℕ → Node) → ℕ → Node
unlink node nodes =
    let n1 =
      if (nodes node).prev == 0
      then nodes
      else set_next (nodes node).prev (nodes node).next nodes in
    if (n1 node).next == 0 then n1 else set_prev (n1 node).next (n1 node).prev n1

unfoldable pub list_delete : (node : ℕ) → Store → Store
list_delete node s = record {
  nodes = set_next node 0 (set_prev node 0 (unlink node s.nodes));
  list = record {
    head = if node == s.list.head then (s.nodes node).next else s.list.head;
    tail = if node == s.list.tail then (s.nodes node).prev else s.list.tail;
    length = (s.list.length + (2 ^ 32 - 1)) % 2 ^ 32;
  };
}

-- The node `i` steps behind another.
unfoldable pub steps : (i node : ℕ) → (ℕ → Node) → Option ℕ
steps zero node nodes = some node
steps (suc i) node nodes =
    let rest = steps i (nodes node).next nodes in if node == 0 then none else rest

-- `list_delete` of NULL reads its links.
unfoldable pub delete_there : (node : ℕ) → Store → Option Store
delete_there node s = if node == 0 then none else some (list_delete node s)

unfoldable pub list_remove : (index : ℕ) → Store → Option Store
list_remove index s =
    if ltb s.list.length index
    then some s
    else do n ← steps index s.list.head s.nodes; delete_there n s

unfoldable pub list_pop : Store → Store × ℕ
list_pop s = if s.list.tail == 0 then (s, 0) else (list_delete s.list.tail s, s.list.tail)

unfoldable pub list_dequeue : Store → Store × ℕ
list_dequeue s = if s.list.head == 0 then (s, 0) else (list_delete s.list.head s, s.list.head)

-- The loop of `list_copy`, with the nodes that `malloc` returns: it does not advance `node`.
unfoldable pub copy_loop : (rounds : ℕ) → (malloc : ℕ → ℕ) → (node : ℕ) → Store → Option Store
copy_loop zero malloc node s = none
copy_loop (suc n) malloc node s =
    let rest = copy_loop n malloc node (list_insert (malloc n) (s.nodes node).value s) in
    if node == 0 then some s else rest

unfoldable pub list_copy : (rounds : ℕ) → (malloc : ℕ → ℕ) → Store → Option Store
list_copy rounds malloc original =
    copy_loop rounds malloc original.list.head (record original { list = list_create })

-- Both lists have their nodes in the same memory.
unfoldable pub list_merge : (source : LinkedList) → Store → Store
list_merge source s = record {
  nodes = if s.list.tail == 0 then s.nodes else set_next s.list.tail source.head s.nodes;
  list = record {
    head = if s.list.tail == 0 then source.head else s.list.head;
    tail = if source.tail == 0 then s.list.tail else source.tail;
    length = (s.list.length + source.length) % 2 ^ 32;
  };
}
