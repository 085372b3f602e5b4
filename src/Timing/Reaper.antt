-- ===== src/Timing/Reaper.antt =====
-- kernel/timing.c: which timers `timing_reaper` drops.
use beryllium.Base.{ℕ, zero, suc, ◌^◌, ◌≤◌, ◌<◌, ◌≡◌, refl, ◌∙◌, List, [], ◌∷◌, map, arith}
use beryllium.Timing.{Entry, State, reap, reaper}
use beryllium.Timing.Register.{slot, IsBusy}

slot-map :
    (tick : ℕ) (es : List Entry) (i : ℕ) → slot (map (reap tick) es) i ≡ reap tick (slot es i)
unfolding reap
slot-map tick [] i = refl
slot-map tick (e ∷ es) zero = refl
slot-map tick (e ∷ es) (suc i) = slot-map tick es i

reap_passed :
    (tick : ℕ) (e : Entry)
    → tick < 2 ^ 31
    → e.fire_tick < tick
    → IsBusy e
    → ((reap tick e).fire_tick ≡ 0) × ((reap tick e).handler ≡ 0)
unfolding reap
reap_passed tick e now h busy = ground arith

reap_kept :
    (tick : ℕ) (e : Entry)
    → tick < 2 ^ 31
    → e.fire_tick < 2 ^ 31
    → tick ≤ e.fire_tick
    → reap tick e ≡ e
unfolding reap
reap_kept tick e now due h = ground arith

reap_negative :
    (tick : ℕ) (e : Entry)
    → tick < 2 ^ 31
    → 2 ^ 31 ≤ e.fire_tick
    → e.fire_tick < 2 ^ 32
    → (reap tick e).fire_tick ≡ 0
unfolding reap
reap_negative tick e now due word = ground arith

-- While ticks are below 2^31, `timing_reaper` frees each slot in use whose tick has passed, keeps every
-- slot that is due now or later as it was, and leaves the counters and all other state alone.
pub reaper-expired :
    {E : Type 0} (s : State E) (i : ℕ)
    → s.timer.hi < 2 ^ 31
    → (slot s.handlers i).fire_tick < 2 ^ 31
    → ((slot s.handlers i).fire_tick < s.timer.hi
        → IsBusy (slot s.handlers i)
        → ((slot (reaper s).handlers i).fire_tick ≡ 0) × ((slot (reaper s).handlers i).handler ≡ 0))
      × (s.timer.hi ≤ (slot s.handlers i).fire_tick
          → slot (reaper s).handlers i ≡ slot s.handlers i)
      × ((reaper s).timer ≡ s.timer)
      × ((reaper s).rest ≡ s.rest)
unfolding reaper
reaper-expired s i now due = (
  λ h busy. rw slot-map (reap_passed _ _ now h busy),
  λ h. slot-map _ s.handlers i ∙ reap_kept _ _ now due h,
  refl,
  refl,
)

-- A timer that is due after tick 2^31 is dropped by every run of `timing_reaper` before that tick:
-- its tick, read as an `int`, is negative.
pub reaper_drops_pending :
    {E : Type 0} (s : State E) (i : ℕ)
    → s.timer.hi < 2 ^ 31
    → 2 ^ 31 ≤ (slot s.handlers i).fire_tick
    → (slot s.handlers i).fire_tick < 2 ^ 32
    → (slot (reaper s).handlers i).fire_tick ≡ 0
unfolding reaper
reaper_drops_pending s i now due word = rw slot-map (reap_negative _ _ now due word)
