-- ===== src/Timing/Tests.antt =====
-- kernel/timing.c and kernel/timer.c: the theorems at concrete tables.
use beryllium.Base.{ℕ, ◌+◌, ◌-◌, ◌^◌, ◌≡◌, refl, List, [], ◌∷◌, map, replicate}
use beryllium.Timer
use beryllium.Timer.{Timer, switch_device, count_tick}
use beryllium.Timing.{
  Entry, empty_entry, State, register_timer, reschedule, visit, cyclic_from, cyclic_tasks,
}
use beryllium.Timing.Cycle.{next_entry, run_due, quiet, cyclic_tasks-run_due}

-- A handler 7 that is due at tick 100 and every 50 ticks after it.
abbrev ticker : Entry
ticker = record { name = 1; fire_tick = 100; repeat_rate = 50; no = 0; handler = 7 }

abbrev log : (handler index : ℕ) → List ℕ → List ℕ
log handler index calls = handler ∷ calls

abbrev table : List Entry
table = ticker ∷ replicate 254 empty_entry

abbrev at_tick : ℕ → State (List ℕ)
at_tick hi = record { timer = record Timer.boot { hi = hi }; handlers = table; rest = [] }

register_second : (register_timer 2 10 9 0 (at_tick 60)).1 ≡ 1
unfolding register_timer
register_second = refl

fires_once : (cyclic_tasks (quiet log) 100 (at_tick 100)).rest ≡ 7 ∷ []
unfolding cyclic_tasks cyclic_from visit reschedule
fires_once = refl

switch_unknown : switch_device 1 (record Timer.boot { device = 2 }) ≡ Timer.boot
unfolding switch_device
switch_unknown = refl

cyclic_tasks-run_due_example : cyclic_tasks (quiet log) 100 (at_tick 100) ≡ record (at_tick 100) {
  handlers = map (next_entry 100) table;
  rest = run_due log 100 0 table [];
}
cyclic_tasks-run_due_example = cyclic_tasks-run_due log 100 (at_tick 100) refl

-- 100 ticks before tick 2^31, a timer that is due 100 ticks after it.
abbrev late : State (List ℕ)
late = record {
  timer = record Timer.boot { hi = 2 ^ 31 - 100 };
  handlers = record ticker { fire_tick = 2 ^ 31 + 100 } ∷ [];
  rest = [];
}
