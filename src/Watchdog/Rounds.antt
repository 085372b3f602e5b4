-- ===== src/Watchdog/Rounds.antt =====
-- kernel/wd.c: what the watchdog does to a kernel that stalls and to one that does not.
use beryllium.Base.{
  ℕ, zero, suc, ◌+◌, ◌^◌, ◌<◌, ◌≡◌, refl, ap, ◌-◌, ◌%◌, ◌∙◌, inl, inr, Bool-cases, ltb→lt, true,
  false, Option, none, some, List, [], ◌∷◌, ◌++◌, arith, ltb, if◌then◌else◌, replicate,
}
use beryllium.Watchdog.{
  Watchdog, hu_limit_kmain, notify_kmain, notify, disable, disabled, enabled, evaluate, Event,
  notified, evaluated, step, run,
}
use beryllium.Watchdog.Limits.{IsBounded}

-- kmain made no progress since the last evaluation.
abbrev pub IsStalled : Watchdog → Type 0
IsStalled w = w.kmain ≡ w.kmain_o

evaluate_stalled :
    (w : Watchdog)
    → IsBounded w
    → IsStalled w
    → evaluate w ≡ (
        if ltb w.kmain_hangups hu_limit_kmain
        then some
            (record w { total_hangups = w.total_hangups + 1; kmain_hangups = w.kmain_hangups + 1 })
        else none)
unfolding evaluate
evaluate_stalled w b s = ground arith

run-cons :
    (e : Event) (es : List Event) (w w' : Watchdog)
    → step e w ≡ some w'
    → run (e ∷ es) w ≡ run es w'
unfolding run
run-cons e es w w' h = ground arith

run-cons_halt :
    (e : Event) (es : List Event) (w : Watchdog) → step e w ≡ none → run (e ∷ es) w ≡ none
unfolding run
run-cons_halt e es w h = ground arith

run-nil : (w : Watchdog) → run [] w ≡ some w
unfolding run
run-nil w = refl

step-notified :
    (w : Watchdog)
    → w.enabled ≡ true
    → step (notified notify_kmain) w ≡ some (record w { kmain = (w.kmain + 1) % 2 ^ 32 })
unfolding step notify
step-notified w on = ground arith

step-evaluated : (w : Watchdog) → step evaluated w ≡ evaluate w
unfolding step
step-evaluated w = refl

-- How often the watchdog is evaluated.
unfoldable pub evaluations : List Event → ℕ
evaluations [] = 0
evaluations (evaluated ∷ es) = suc (evaluations es)
evaluations (e ∷ es) = evaluations es

-- Nothing switches the watchdog on.
abbrev pub StaysOff : List Event → Type 0
StaysOff [] = Unit {0}
StaysOff (enabled ∷ es) = ⊥
StaysOff (e ∷ es) = StaysOff es

abbrev hung : Watchdog → ℕ → Option Watchdog
hung w n =
    if ltb hu_limit_kmain (w.kmain_hangups + n)
    then none
    else some
        (record w { total_hangups = w.total_hangups + n; kmain_hangups = w.kmain_hangups + n })

-- A watchdog that is switched off still counts: however often kmain reports, each evaluation is a
-- hang-up, and the kernel is halted as soon as there are more than `WD_HU_LIMIT_KMAIN` of them.
pub run_disabled :
    (es : List Event) (w : Watchdog)
    → IsBounded w
    → IsStalled w
    → w.enabled ≡ false
    → StaysOff es
    → run es w ≡ hung w (evaluations es)
unfolding run step notify disable evaluations
run_disabled [] w b s off still = ground arith
run_disabled (disabled ∷ es) w b s off still =
    ground (arith, run_disabled es (record w { enabled = false }) (omega arith) s refl still)
run_disabled (enabled ∷ es) w b s off still = absurd still
run_disabled (notified source ∷ es) w b s off still =
    ground (arith, run_disabled es w b s off still)
run_disabled (evaluated ∷ es) w b s off still =
    let w' : Watchdog = record w {
      total_hangups = w.total_hangups + 1;
      kmain_hangups = w.kmain_hangups + 1;
    } in
    elim (Bool-cases (ltb w.kmain_hangups hu_limit_kmain)) [
      | inl room ↦
          run-cons evaluated es w w' (step-evaluated w ∙ evaluate_stalled w b s ∙ rw room)
          ∙ run_disabled es w' (omega (arith, ltb→lt _ _ room)) s off still
          ∙ ground arith
      | inr full ↦
          run-cons_halt evaluated es w (step-evaluated w ∙ evaluate_stalled w b s ∙ rw full)
          ∙ ground arith
    ]

notify_many :
    (n : ℕ) (w : Watchdog) (es : List Event)
    → w.enabled ≡ true
    → w.kmain < 2 ^ 32
    → run (replicate n (notified notify_kmain) ++ es) w
      ≡ run es (record w { kmain = (w.kmain + n) % 2 ^ 32 })
notify_many zero w es on word = ap (λ k. run es (record w { kmain = k })) (omega arith)
notify_many (suc n) w es on word =
    let w' : Watchdog = record w { kmain = (w.kmain + 1) % 2 ^ 32 } in
    run-cons (notified notify_kmain) (replicate n (notified notify_kmain) ++ es) w w'
      (step-notified w on)
    ∙ notify_many n w' es on (omega arith)
    ∙ ap (λ k. run es (record w { kmain = k })) (omega arith)

-- kmain reports a number of times, given less one, and then the watchdog is evaluated.
pub rounds : List ℕ → List Event
rounds [] = []
rounds (k ∷ ks) = replicate (suc k) (notified notify_kmain) ++ (evaluated ∷ rounds ks)

abbrev pub AllBelow : ℕ → List ℕ → Type 0
AllBelow n [] = Unit {0}
AllBelow n (k ∷ ks) = (k < n) × AllBelow n ks

evaluate_alive :
    (w : Watchdog) (k : ℕ)
    → IsBounded w
    → w.kmain < 2 ^ 32
    → k + 1 < 2 ^ 32
    → w.kmain ≡ w.kmain_o
    → let m = (w.kmain + suc k) % 2 ^ 32 in
      evaluate (record w { kmain = m }) ≡ some (record w { kmain = m; kmain_o = m })
unfolding evaluate
evaluate_alive w k b word few s = ground arith

-- As long as kmain reports at least once, and fewer than 2^32 times, before each evaluation, the
-- watchdog never halts the kernel and counts no hang-up.
pub run_alive :
    (ks : List ℕ) (w : Watchdog)
    → IsBounded w
    → IsStalled w
    → w.enabled ≡ true
    → w.kmain < 2 ^ 32
    → AllBelow (2 ^ 32 - 1) ks
    → (w' : Watchdog) × (run (rounds ks) w ≡ some w') × (w'.kmain_hangups ≡ w.kmain_hangups)
unfolding rounds
run_alive [] w b s on word few = (w, run-nil w, refl)
run_alive (k ∷ ks) w b s on word few =
    let m = (w.kmain + suc k) % 2 ^ 32 in
    let v : Watchdog = record w { kmain = m } in
    let v' : Watchdog = record w { kmain = m; kmain_o = m } in
    let (w', went, same) = run_alive ks v' (omega arith) refl on (omega arith) few.1 in
    (
      w',
      notify_many (suc k) w (evaluated ∷ rounds ks) on word
          ∙ run-cons evaluated (rounds ks) v v'
              (step-evaluated v ∙ evaluate_alive w k b word (omega arith) s)
          ∙ went,
      same,
    )
