-- ===== src/Watchdog/Limits.antt =====
-- kernel/wd.c: the two hang-up counters and their limits.
use beryllium.Base.{◌≤◌, ◌≡◌, inl, inr, some, List, [], ◌∷◌, arith, Option-cases}
use beryllium.Watchdog.{
  Watchdog, hu_limit_kmain, disable, enable, notify, evaluate, Event, disabled, enabled, notified,
  evaluated, step, run,
}

-- Both counters hold one number, which has not passed the lower limit.
pub record IsBounded (w : Watchdog) : Type 0 where
  pub same : w.total_hangups ≡ w.kmain_hangups
  pub limit : w.kmain_hangups ≤ hu_limit_kmain

step-IsBounded : (e : Event) (w w' : Watchdog) → IsBounded w → step e w ≡ some w' → IsBounded w'
unfolding step disable enable notify evaluate
step-IsBounded disabled w w' b h = ground arith
step-IsBounded enabled w w' b h = ground arith
step-IsBounded (notified source) w w' b h = ground arith
step-IsBounded evaluated w w' b h = ground arith

-- In every state of a kernel that the watchdog has not halted, the two hang-up counters are equal
-- and at most `WD_HU_LIMIT_KMAIN`, so the test against `WD_HU_LIMIT` never succeeds.
pub run-IsBounded :
    (es : List Event) (w w' : Watchdog) → IsBounded w → run es w ≡ some w' → IsBounded w'
unfolding run
run-IsBounded [] w w' b h = ground arith
run-IsBounded (e ∷ es) w w' b h = elim (Option-cases (step e w)) [
  | inl halted ↦ ground arith
  | inr (v, went) ↦ ground (arith, run-IsBounded es v w' (step-IsBounded e w v b went))
]
