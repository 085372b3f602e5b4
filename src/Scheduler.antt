-- ===== src/Scheduler.antt =====
-- kernel/scheduler.c and kernel/thread.c: the queue of threads, whose items are linked in memory. An item or a
-- thread is its address, 0 for NULL. `none` is an access through NULL, or rounds that have run out.
pub mod Queue
pub mod Turns
pub mod Create
mod Tests
use beryllium.Base.{ℕ, zero, suc, ◌+◌, Option, none, some, ◌>>=◌, ◌==◌, if◌then◌else◌}
use beryllium.Timing.{State, register_timer}

-- `tlist_t`
pub record Item : Type 0 where
  pub next : ℕ
  pub thread : ℕ

abbrev pub Items : Type 0
Items = ℕ → Item

pub record Scheduler : Type 0 where
  pub items : Items
  pub tqueue : ℕ
  pub tcurrent : ℕ
  pub scheduler_state : ℕ

unfoldable pub item_at : Items → ℕ → Option Item
item_at items a = if a == 0 then none else some (items a)

unfoldable pub write : ℕ → Item → Items → Items
write a v items b = if b == a then v else items b

-- A thread that is NULL is only reported.
unfoldable pub next_thread : (tcurrent : ℕ) → Scheduler → Option Scheduler
next_thread tcurrent s = do now ← item_at s.items tcurrent; some (record s { tcurrent = tcurrent })

unfoldable pub scheduler_update : Scheduler → Option Scheduler
scheduler_update s = if s.scheduler_state == 0 then some s else do
  current ← item_at s.items s.tcurrent
  next_thread (if current.next == 0 then s.tqueue else current.next) s

-- The loop that looks for the last item.
unfoldable pub last_item : (rounds test : ℕ) → Items → Option ℕ
last_item zero test items = none
last_item (suc n) test items =
    let rest = last_item n (items test).next items in
    if test == 0 then none else if (items test).next == 0 then some test else rest

-- `thread_item` is what `malloc` returned.
unfoldable pub scheduler_add_thread : (rounds thread_item thread : ℕ) → Scheduler → Option Scheduler
scheduler_add_thread rounds thread_item thread s =
    let items = write thread_item (record { next = 0; thread = thread }) s.items in
    do
      test ← last_item rounds s.tqueue items
      some (record s {
        items = write test (record (items test) { next = thread_item }) items;
        scheduler_state = 1;
      })

-- `item` is what `malloc` returned, `name` the address of the name that the timer gets, and `update` that of
-- `scheduler_update`.
unfoldable pub scheduler_init :
    (item first_thread name update : ℕ) → State Scheduler → State Scheduler
scheduler_init item first_thread name update s =
    let started = record s.rest {
      items = write item (record { next = 0; thread = first_thread }) s.rest.items;
      tqueue = item;
      tcurrent = item;
    } in
    (register_timer name 5 update 5 (record s { rest = started })).0
