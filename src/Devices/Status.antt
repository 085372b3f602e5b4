-- ===== src/Devices/Status.antt =====
-- kernel/device.c: the status of a device and what its driver has been asked.
use beryllium.Base.{
  ℕ, ◌≡◌, ◌≢◌, refl, ◌⊎◌, inl, inr, true, false, Option, none, some, ◌>>=◌, arith, ◌==◌, Bool-cases,
  Option-cases, List, [], ◌∷◌, eq_of_==,
}
use beryllium.Lock.{mutex_lock}
use beryllium.Lock.Spin.{mutex_lock_iff}
use beryllium.Devices.{
  online, Driver, Device, State, started, stopped, bring_up, start_device, bring_down, stop_device,
  device_stop,
}

-- What a driver may rely on and must keep to: its `start` is called where `Down` holds and leaves `Up` if it
-- returns 0, and else `Down`; its `stop` is called where `Up` holds and leaves `Down` if it returns 0, and else `Up`.
pub record IsDriver {W : Type 0} (Up Down : W → Type 0) (d : Driver W) : Type 0 where
  pub starts : (w : W) → Down w → (d.start w).1 ≡ 0 → Up (d.start w).0
  pub start_fails : (w : W) → Down w → (d.start w).1 ≢ 0 → Down (d.start w).0
  pub stops : (w : W) → Up w → (d.stop w).1 ≡ 0 → Down (d.stop w).0
  pub stop_fails : (w : W) → Up w → (d.stop w).1 ≢ 0 → Up (d.stop w).0

-- A call on the device.
pub data Call : Type 0 where
  start : Call
  stop : Call

mutex_lock-none : (n mutex : ℕ) → mutex ≢ 0 → mutex_lock n mutex ≡ none
mutex_lock-none n mutex ne = elim (Option-cases (mutex_lock n mutex)) [
  | inl e ↦ e
  | inr (u, e) ↦ absurd (ne ((mutex_lock_iff n mutex).0 e))
]

module _ {W : Type 0} where
  unfoldable pub step : (rounds : ℕ) → Call → State W → Option (State W × ℕ)
  step rounds start s = some (start_device s)
  step rounds stop s = stop_device rounds s

  unfoldable pub run : (rounds : ℕ) → List Call → State W → Option (State W)
  run rounds [] s = some s
  run rounds (c ∷ cs) s = do result ← step rounds c s; run rounds cs result.0

  -- An online device with a mutex, whatever that holds, is never stopped: the call does not return.
  pub device_stop_hangs :
      (rounds : ℕ) (dev : Device W) (d : Driver W) (w : W)
      → dev.status ≡ online
      → dev.driver ≡ some d
      → dev.mutex ≢ 0
      → device_stop rounds (some dev) w ≡ none
  unfolding device_stop stop_device bring_down
  device_stop_hangs rounds dev d w up has locked =
      rw (up, has, mutex_lock-none rounds dev.mutex locked) refl

module _ {W : Type 0} (Up Down : W → Type 0) (d : Driver W) (law : IsDriver Up Down d) where
  -- The device has the driver and no mutex, and the driver is up just when the status is `online`.
  pub record IsTold (s : State W) : Type 0 where
    pub has : s.dev.driver ≡ some d
    pub bare : s.dev.mutex ≡ 0
    pub told : ((s.dev.status ≡ online) × Up s.world) ⊎ ((s.dev.status ≢ online) × Down s.world)

  started-IsTold :
      (s : State W) (w : W) (ret : ℕ)
      → IsTold s
      → (ret ≡ 0 → Up w)
      → (ret ≢ 0 → Down w)
      → IsTold (started (w, ret) s).0
  unfolding started
  started-IsTold s w ret ok good bad = elim (Bool-cases (ret == 0)) [
    | inl e ↦
        rw e (record { has = ok.has; bare = ok.bare; told = inl (refl, good (eq_of_== ret 0 e)) })
    | inr e ↦
        rw e (record {
          has = ok.has;
          bare = ok.bare;
          told = inr (omega arith, bad (ground (arith, e)));
        })
  ]

  stopped-IsTold :
      (s : State W) (w : W) (ret : ℕ)
      → IsTold s
      → (ret ≡ 0 → Down w)
      → (ret ≢ 0 → Up w)
      → IsTold (stopped (w, ret) s).0
  unfolding stopped
  stopped-IsTold s w ret ok good bad = elim (Bool-cases (ret == 0)) [
    | inl e ↦
        rw e (record {
          has = ok.has;
          bare = ok.bare;
          told = inr (omega arith, good (eq_of_== ret 0 e));
        })
    | inr e ↦
        rw e (record { has = ok.has; bare = ok.bare; told = inl (refl, bad (ground (arith, e))) })
  ]

  down_of : (s : State W) → IsTold s → (s.dev.status == online) ≡ false → Down s.world
  down_of s ok e = elim ok.told [
    | inl (up, there) ↦ ground (arith, e, up)
    | inr (down, there) ↦ there
  ]

  up_of : (s : State W) → IsTold s → (s.dev.status == online) ≡ true → Up s.world
  up_of s ok e = elim ok.told [
    | inl (up, there) ↦ there
    | inr (down, there) ↦ ground (arith, e, down)
  ]

  start-IsTold : (s : State W) → IsTold s → IsTold (start_device s).0
  unfolding start_device bring_up
  start-IsTold s ok = elim (Bool-cases (s.dev.status == online)) [
    | inl up ↦ rw up ok
    | inr down ↦
        let there = down_of s ok down in
        simp (down, ok.has)
          (started-IsTold s (d.start s.world).0 (d.start s.world).1 ok (law.starts s.world there)
            (law.start_fails s.world there))
  ]

  stop-IsTold :
      (rounds : ℕ) (s : State W)
      → IsTold s
      → (s' : State W) × (ret : ℕ) × (stop_device rounds s ≡ some (s', ret)) × IsTold s'
  unfolding stop_device bring_down
  stop-IsTold rounds s ok = elim (Bool-cases (s.dev.status == online)) [
    | inl up ↦
        let there = up_of s ok up in
        (
          (stopped (d.stop s.world) s).0,
          (stopped (d.stop s.world) s).1,
          simp (up, ok.has, (mutex_lock_iff rounds s.dev.mutex).1 ok.bare) refl,
          stopped-IsTold s (d.stop s.world).0 (d.stop s.world).1 ok (law.stops s.world there)
              (law.stop_fails s.world there),
        )
    | inr down ↦ (s, s.dev.status, rw down refl, ok)
  ]

  -- Over a run of starts and stops of a device without a mutex each call returns, the driver is started
  -- only when it is down and stopped only when it is up, and it is up just when the status is `online`.
  pub run-IsTold :
      (rounds : ℕ) (cs : List Call) (s : State W)
      → IsTold s
      → (s' : State W) × (run rounds cs s ≡ some s') × IsTold s'
  unfolding run step
  run-IsTold rounds [] s ok = (s, refl, ok)
  run-IsTold rounds (start ∷ cs) s ok = run-IsTold rounds cs (start_device s).0 (start-IsTold s ok)
  run-IsTold rounds (stop ∷ cs) s ok =
      let (s', ret, one, ok') = stop-IsTold rounds s ok in
      let (s'', more, last) = run-IsTold rounds cs s' ok' in (s'', rw one more, last)
