-- ===== src/Watchdog.antt =====
-- kernel/wd.c: the watchdog that counts how often kmain made no progress between two timer ticks.
-- The counters are `int`s, kept as 32-bit patterns; what is printed is left out.
pub mod Rounds
pub mod Limits
mod Tests
use beryllium.Base.{
  ℕ, zero, suc, ◌+◌, ◌%◌, ◌^◌, Bool, true, false, Option, none, some, List, [], ◌∷◌, ◌==◌,
  if◌then◌else◌,
}
use beryllium.Timing.{int_lt}

pub record Watchdog : Type 0 where
  pub kmain : ℕ
  pub kmain_o : ℕ
  pub kmain_hangups : ℕ
  pub total_hangups : ℕ
  pub enabled : Bool

abbrev pub boot : Watchdog
boot = record { kmain = 0; kmain_o = 0; kmain_hangups = 0; total_hangups = 0; enabled = true }

-- `WD_HU_LIMIT`, `WD_HU_LIMIT_KMAIN` and `WD_NOTIFY_KMAIN`.
abbrev pub hu_limit : ℕ
hu_limit = 0x500

abbrev pub hu_limit_kmain : ℕ
hu_limit_kmain = 200

abbrev pub notify_kmain : ℕ
notify_kmain = 0x10

pub disable : Watchdog → Watchdog
disable w = record w { enabled = false }

pub enable : Watchdog → Watchdog
enable w = record w { enabled = true }

pub notify : ℕ → Watchdog → Watchdog
notify source w =
    if w.enabled
    then if source == notify_kmain then record w { kmain = (w.kmain + 1) % 2 ^ 32 } else w
    else w

-- The first `if` of `wd_evaluate`.
count_hangup : Watchdog → Watchdog
count_hangup w =
    if w.kmain == w.kmain_o
    then record w {
      total_hangups = (w.total_hangups + 1) % 2 ^ 32;
      kmain_hangups = (w.kmain_hangups + 1) % 2 ^ 32;
    }
    else w

-- `none` is a panic: the kernel halts and the call does not return.
pub evaluate : Watchdog → Option Watchdog
unfolding count_hangup
evaluate w =
    let c = count_hangup w in
    if int_lt hu_limit c.total_hangups
    then none
    else if int_lt hu_limit_kmain c.kmain_hangups
    then none
    else some (record c { kmain_o = c.kmain })

-- What the rest of the kernel does to the watchdog, in order.
pub data Event : Type 0 where
  disabled : Event
  enabled : Event
  notified : ℕ → Event
  evaluated : Event

pub step : Event → Watchdog → Option Watchdog
step disabled w = some (disable w)
step enabled w = some (enable w)
step (notified source) w = some (notify source w)
step evaluated w = evaluate w

pub run : List Event → Watchdog → Option Watchdog
run [] w = some w
run (e ∷ es) w = elim (step e w) [ none ↦ none | some w' ↦ run es w' ]
