-- ===== src/Timing.antt =====
-- kernel/timing.c: the table of timer handlers, and the tick of kernel/timer.c that runs them.
-- An `int` that holds a tick is kept as its 32-bit pattern. A handler is a function pointer, 0 for
-- NULL; what the call of one does to the kernel's state is the parameter `call`.
pub mod Register
pub mod Cycle
pub mod Reaper
pub mod Uptime
mod Tests
use beryllium.Base.{
  ℕ, zero, suc, ◌+◌, ◌%◌, ◌^◌, Bool, not, ◌&&◌, List, [], ◌∷◌, map, ltb, ◌==◌, if◌then◌else◌,
  get_or, set, replicate,
}
use beryllium.Timer.{Timer, count_tick}

-- `timer_t`; `name` is the address of the text.
pub record Entry : Type 0 where
  pub name : ℕ
  pub fire_tick : ℕ
  pub repeat_rate : ℕ
  pub no : ℕ
  pub handler : ℕ

abbrev pub empty_entry : Entry
empty_entry = record { name = 0; fire_tick = 0; repeat_rate = 0; no = 0; handler = 0 }

-- The number of slots of `handlers`.
abbrev pub slots : ℕ
slots = 0xFF

-- `handlers`, the counters of timer.c and the rest of the kernel.
pub record State (E : Type 0) : Type 0 where
  pub timer : Timer
  pub handlers : List Entry
  pub rest : E

-- `a < b` of two `int`s.
abbrev pub int_lt : ℕ → ℕ → Bool
int_lt a b = ltb ((a + 2 ^ 31) % 2 ^ 32) ((b + 2 ^ 31) % 2 ^ 32)

-- The first loop of `timing_register_timer`: the index at which it stops.
find_free : List Entry → ℕ → ℕ
find_free [] index = index
find_free (e ∷ es) index = if e.fire_tick == 0 then index else find_free es (index + 1)

module _ {E : Type 0} where
  pub register_timer : (name tick handler reschedule : ℕ) → State E → State E × ℕ
  unfolding find_free
  register_timer name tick handler reschedule s =
      let index = find_free s.handlers 0 in
      if index == slots then (s, 0xFF) else (
        record s {
          handlers = set s.handlers index (record {
            name = name;
            fire_tick = (tick + s.timer.hi) % 2 ^ 32;
            repeat_rate = reschedule;
            no = index;
            handler = handler;
          });
        },
        index,
      )

-- The loop of `timing_deregister_timer`, which stops at the first entry of the handler.
deregister_from : ℕ → List Entry → List Entry
deregister_from handler [] = []
deregister_from handler (e ∷ es) =
    if not (e.handler == 0) && (e.handler == handler)
    then record e { handler = 0; repeat_rate = 0; fire_tick = 0 } ∷ es
    else e ∷ deregister_from handler es

-- What `timing_reaper` does to one slot.
pub reap : ℕ → Entry → Entry
reap tick e =
    if e.fire_tick == 0
    then e
    else if int_lt e.fire_tick tick
    then record e { fire_tick = 0; repeat_rate = 0; handler = 0 }
    else e

module _ {E : Type 0} where
  pub deregister_timer : ℕ → State E → State E
  unfolding deregister_from
  deregister_timer handler s = record s { handlers = deregister_from handler s.handlers }

  pub remove_index : ℕ → State E → State E
  remove_index index s = record s {
    handlers =
        set s.handlers index (record (get_or s.handlers index empty_entry) { repeat_rate = 0 });
  }

  pub reaper : State E → State E
  unfolding reap
  reaper s = record s { handlers = map (reap s.timer.hi) s.handlers }

  -- `timing_init`; the address of `timing_reaper` and of its name are given.
  pub init : (name reaper_handler : ℕ) → State E → State E
  unfolding register_timer
  init name reaper_handler s =
      (register_timer name 100 reaper_handler 100
        (record s { handlers = replicate slots empty_entry })).0

  module _ (call : (handler index : ℕ) → State E → State E) where
    -- The end of a round of `cyclic_tasks`: the repeat rate is read after the handler has run.
    pub reschedule : (tick index : ℕ) → State E → State E
    reschedule tick index s =
        let e = get_or s.handlers index empty_entry in
        if e.repeat_rate == 0 then s else record s {
          handlers =
              set s.handlers index (record e { fire_tick = (tick + e.repeat_rate) % 2 ^ 32 });
        }

    -- One round of the loop of `cyclic_tasks`.
    pub visit : (tick index : ℕ) → State E → State E
    unfolding reschedule
    visit tick index s =
        let e = get_or s.handlers index empty_entry in
        if e.fire_tick == 0
        then s
        else if e.fire_tick == tick
        then reschedule tick index (call e.handler index s)
        else s

    -- The rounds from `index` on.
    pub cyclic_from : (rounds tick index : ℕ) → State E → State E
    cyclic_from zero tick index s = s
    cyclic_from (suc n) tick index s = cyclic_from n tick (index + 1) (visit tick index s)

    pub cyclic_tasks : ℕ → State E → State E
    cyclic_tasks tick s = cyclic_from slots tick 0 s

    -- `timer_recieveTick`.
    pub recieve_tick : ℕ → State E → State E
    recieve_tick device_id s =
        let t = count_tick s.timer in
        if device_id == s.timer.device then cyclic_tasks t.hi (record s { timer = t }) else s
