-- ===== src/Devices/Tests.antt =====
-- kernel/device.c: a driver that remembers whether it is up.
use beryllium.Base.{◌-◌, ◌^◌, ◌≡◌, refl, inr, Bool, true, false, none, some, arith, [], ◌∷◌}
use beryllium.Devices.{Driver, State, start_device, bring_up, device_start}
use beryllium.Devices.Status.{IsDriver, IsTold, start, stop, run, run-IsTold}

abbrev switch : Driver Bool
switch = record { start = λ w. (true, 0); stop = λ w. (false, 0) }

abbrev Up : Bool → Type 0
Up w = w ≡ true

abbrev Down : Bool → Type 0
Down w = w ≡ false

switch-IsDriver : IsDriver Up Down switch
switch-IsDriver = record {
  starts = λ w down zero. refl;
  start_fails = λ w down ne. absurd (ne refl);
  stops = λ w up zero. refl;
  stop_fails = λ w up ne. absurd (ne refl);
}

abbrev off : State Bool
off = record { dev = record { status = 0; mutex = 0; driver = some switch }; world = false }

off-IsTold : IsTold Up Down switch switch-IsDriver off
off-IsTold = record { has = refl; bare = refl; told = inr (omega arith, refl) }

run-IsTold_example :
    (s' : State Bool) × (run 10 (start ∷ (start ∷ (stop ∷ (start ∷ [])))) off ≡ some s')
    × IsTold Up Down switch switch-IsDriver s'
run-IsTold_example =
    run-IsTold Up Down switch switch-IsDriver 10 (start ∷ (start ∷ (stop ∷ (start ∷ [])))) off
      off-IsTold

no_driver :
    device_start (some (record { status = 0; mutex = 0; driver = none })) true
    ≡ (some (record { status = 0; mutex = 0; driver = none }), true, 2 ^ 32 - 2)
unfolding device_start start_device bring_up
no_driver = refl
