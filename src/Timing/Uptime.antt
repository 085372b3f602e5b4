-- ===== src/Timing/Uptime.antt =====
-- kernel/timer.c: what the two counters count.
use beryllium.Base.{
  ℕ, zero, suc, ◌+◌, ◌/◌, ◌^◌, ◌<◌, ◌≡◌, ◌≢◌, refl, ◌∙◌, inl, inr, arith, ◌==◌, eq_of_==,
  Bool-cases, get_or,
}
use beryllium.Timer.{Timer, count_tick}
use beryllium.Timing.{
  empty_entry, slots, State, reschedule, visit, cyclic_from, cyclic_tasks, recieve_tick,
}

-- The counters of a timer that counts milliseconds.
pub record IsCounting (t : Timer) : Type 0 where
  pub millisecond : t.resolution ≡ 1
  pub seconds : t.low ≡ t.hi / 1000
  pub word : t.hi < 2 ^ 32

count_tick-IsCounting : (t : Timer) → IsCounting t → t.hi + 1 < 2 ^ 32 → IsCounting (count_tick t)
unfolding count_tick
count_tick-IsCounting t v h = ground arith

count_tick-hi : (t : Timer) → t.hi + 1 < 2 ^ 32 → (count_tick t).hi ≡ t.hi + 1
unfolding count_tick
count_tick-hi t h = ground arith

module _ {E : Type 0} (call : (handler index : ℕ) → State E → State E)
    (keeps : (h i : ℕ) (s : State E) → (call h i s).timer ≡ s.timer) where
  visit-timer : (tick i : ℕ) (s : State E) → (visit call tick i s).timer ≡ s.timer
  unfolding visit reschedule
  visit-timer tick i s =
      let e = get_or s.handlers i empty_entry in ground (arith, keeps e.handler i s)

  cyclic_from-timer : (n tick i : ℕ) (s : State E) → (cyclic_from call n tick i s).timer ≡ s.timer
  unfolding cyclic_from
  cyclic_from-timer zero tick i s = refl
  cyclic_from-timer (suc n) tick i s =
      cyclic_from-timer n tick (i + 1) (visit call tick i s) ∙ visit-timer tick i s

  cyclic_tasks-timer : (tick : ℕ) (s : State E) → (cyclic_tasks call tick s).timer ≡ s.timer
  unfolding cyclic_tasks
  cyclic_tasks-timer tick s = cyclic_from-timer slots tick 0 s

  -- With handlers that leave the counters alone, a tick before the 2^32nd keeps `timer_low` the
  -- number of whole seconds in `timer_hi`; a tick of another device changes nothing, and a tick of
  -- the timer's own device advances `timer_hi` by one.
  pub recieve_tick-IsCounting :
      (device_id : ℕ) (s : State E)
      → IsCounting s.timer
      → s.timer.hi + 1 < 2 ^ 32
      → IsCounting (recieve_tick call device_id s).timer
        × (device_id ≢ s.timer.device → recieve_tick call device_id s ≡ s)
        × (device_id ≡ s.timer.device → (recieve_tick call device_id s).timer.hi ≡ s.timer.hi + 1)
  unfolding recieve_tick
  recieve_tick-IsCounting device_id s v h =
      let s' = record s { timer = count_tick s.timer } in
      let kept = cyclic_tasks-timer s'.timer.hi s' in
      elim (Bool-cases (device_id == s.timer.device)) [
        | inl own ↦
            rw (own, kept)
              (
                count_tick-IsCounting s.timer v h,
                λ ne. absurd (ne (eq_of_== _ _ own)),
                λ _. count_tick-hi s.timer h,
              )
        | inr other ↦ rw other (v, λ _. refl, λ e. ground arith)
      ]
