-- ===== src/Watchdog/Tests.antt =====
-- kernel/wd.c: the theorems at concrete runs.
use beryllium.Base.{ℕ, ◌≡◌, refl, false, none, List, ◌++◌, replicate}
use beryllium.Watchdog.{Watchdog, boot, Event, notified, evaluated, evaluate, step, run}

abbrev off : Watchdog
off = record boot { enabled = false }

-- Switched off, with kmain reporting before each of 201 evaluations.
abbrev reports : ℕ → List Event
reports n = replicate n (notified 0x10) ++ replicate n evaluated

abbrev stalled_once : Watchdog
stalled_once = record boot { kmain_hangups = 1; total_hangups = 1 }

halts : run (replicate 201 evaluated) boot ≡ none
unfolding run step evaluate
halts = refl
