-- ===== src/Timing/Cycle.antt =====
-- kernel/timing.c: `cyclic_tasks` against a pass over the table.
use mathlib.Core.List.{append_assoc}
use beryllium.Base.{
  ℕ, ◌+◌, ◌%◌, ◌^◌, ◌≡◌, refl, ap, ◌∙◌, List, [], ◌∷◌, ◌++◌, map, arith, ◌==◌, if◌then◌else◌,
  length, length-append, get_or-append_length, set-append_length,
}
use beryllium.Timer.{Timer}
use beryllium.Timing.{
  Entry, empty_entry, slots, State, reschedule, visit, cyclic_from, cyclic_tasks,
}

-- What one tick makes of a slot.
pub next_entry : ℕ → Entry → Entry
next_entry tick e =
    if e.fire_tick == 0
    then e
    else if e.fire_tick == tick
    then if e.repeat_rate == 0 then e else record e { fire_tick = (tick + e.repeat_rate) % 2 ^ 32 }
    else e

module _ {E : Type 0} (run : (handler index : ℕ) → E → E) where
  -- The handlers that are due at `tick`, called in the order of their slots.
  pub run_due : (tick index : ℕ) → List Entry → E → E
  run_due tick index [] x = x
  run_due tick index (e ∷ es) x =
      run_due tick (index + 1) es
        (if e.fire_tick == 0 then x else if e.fire_tick == tick then run e.handler index x else x)

  -- A handler that does not touch the table or the counters.
  abbrev pub quiet : (handler index : ℕ) → State E → State E
  quiet handler index s = record s { rest = run handler index s.rest }

  abbrev state : Timer → List Entry → E → State E
  state t hs x = record { timer = t; handlers = hs; rest = x }

  visit_lem :
      (tick : ℕ) (t : Timer) (x : E) (pre es : List Entry) (e : Entry)
      → visit quiet tick (length pre) (state t (pre ++ (e ∷ es)) x)
        ≡ state t (pre ++ (next_entry tick e ∷ es)) (
            if e.fire_tick == 0
            then x
            else if e.fire_tick == tick
            then run e.handler (length pre) x
            else x)
  unfolding visit reschedule next_entry
  visit_lem tick t x pre es e = ground (
    arith,
    get_or-append_length pre es e empty_entry,
    set-append_length pre es e (record e { fire_tick = (tick + e.repeat_rate) % 2 ^ 32 }),
  )

  cyclic_from_lem :
      (tick : ℕ) (t : Timer) (x : E) (pre es : List Entry)
      → cyclic_from quiet (length es) tick (length pre) (state t (pre ++ es) x)
        ≡ state t (pre ++ map (next_entry tick) es) (run_due tick (length pre) es x)
  unfolding cyclic_from run_due
  cyclic_from_lem tick t x pre [] = refl
  cyclic_from_lem tick t x pre (e ∷ es) =
      let e' = next_entry tick e in
      let x' : E =
        (if e.fire_tick == 0
          then x
          else if e.fire_tick == tick
          then run e.handler (length pre) x
          else x) in
      let grown : length (pre ++ (e' ∷ [])) ≡ length pre + 1 =
        omega (arith, length-append pre (e' ∷ [])) in
      ap (cyclic_from quiet (length es) tick (length pre + 1)) (visit_lem tick t x pre es e)
      ∙ rw
          (
            ← grown,
            ← append_assoc pre (e' ∷ []) es,
            ← append_assoc pre (e' ∷ []) (map (next_entry tick) es),
          )
          (cyclic_from_lem tick t x' (pre ++ (e' ∷ [])) es)

  -- With handlers that leave the table and the counters alone, `cyclic_tasks` of a table of 255
  -- slots calls exactly the handlers that are due, in the order of their slots, and moves each of
  -- those that repeat on by its rate; nothing else changes.
  pub cyclic_tasks-run_due :
      (tick : ℕ) (s : State E)
      → length s.handlers ≡ slots
      → cyclic_tasks quiet tick s ≡ record s {
        handlers = map (next_entry tick) s.handlers;
        rest = run_due tick 0 s.handlers s.rest;
      }
  unfolding cyclic_tasks
  cyclic_tasks-run_due tick s full = rw (← full) (cyclic_from_lem tick s.timer s.rest [] s.handlers)
