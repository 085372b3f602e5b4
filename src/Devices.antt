-- ===== src/Devices.antt =====
-- kernel/device.c: starting and stopping a device. What a driver's functions do to the rest of the kernel
-- is a parameter. `none` is a call that does not return.
pub mod Status
pub mod DeviceTree
mod Tests
use beryllium.Base.{
  ℕ, zero, suc, ◌+◌, ◌-◌, ◌^◌, Bool, true, false, not, Option, none, some, ◌>>=◌, ◌==◌,
  if◌then◌else◌,
}
use beryllium.Lock.{mutex_lock}

-- `DEVICE_STATUS_HALTED`, `DEVICE_STATUS_ONLINE` and `DEVICE_STATUS_ABORTED`.
abbrev pub halted : ℕ
halted = 1

abbrev pub online : ℕ
online = 3

abbrev pub aborted : ℕ
aborted = 5

-- `driver_t`: what its functions leave and return.
pub record Driver (W : Type 0) : Type 0 where
  pub start : W → W × ℕ
  pub stop : W → W × ℕ

-- The status of `device_t`, its mutex, which is a pointer, and its driver, or none for NULL.
pub record Device (W : Type 0) : Type 0 where
  pub status : ℕ
  pub mutex : ℕ
  pub driver : Option (Driver W)

-- A device and the rest of the kernel.
pub record State (W : Type 0) : Type 0 where
  pub dev : Device W
  pub world : W

module _ {W : Type 0} where
  abbrev pub with_status : (status : ℕ) → W → State W → State W
  with_status status w s = record { dev = record s.dev { status = status }; world = w }

  -- The driver's function has left `w` and returned `ret`.
  unfoldable pub started : W × ℕ → State W → State W × ℕ
  started (w, ret) s =
      let status = if ret == 0 then online else aborted in (with_status status w s, status)

  unfoldable pub stopped : W × ℕ → State W → State W × ℕ
  stopped (w, ret) s =
      let status = if ret == 0 then halted else online in (with_status status w s, status)

  unfoldable pub bring_up : Option (Driver W) → State W → State W × ℕ
  bring_up none s = (s, 2 ^ 32 - 2)
  bring_up (some d) s = started (d.start s.world) s

  -- `device_start` of a device that is not NULL.
  unfoldable pub start_device : State W → State W × ℕ
  start_device s = if s.dev.status == online then (s, online) else bring_up s.dev.driver s

  unfoldable pub bring_down : (rounds : ℕ) → Option (Driver W) → State W → Option (State W × ℕ)
  bring_down rounds none s = some (s, 2 ^ 32 - 2)
  bring_down rounds (some d) s = do
    locked ← mutex_lock rounds s.dev.mutex
    some (stopped (d.stop s.world) s)

  -- `device_stop` of a device that is not NULL.
  unfoldable pub stop_device : (rounds : ℕ) → State W → Option (State W × ℕ)
  stop_device rounds s =
      if not (s.dev.status == online)
      then some (s, s.dev.status)
      else bring_down rounds s.dev.driver s

  -- The same of a pointer to a device: `none` is NULL.
  unfoldable pub device_start : Option (Device W) → W → Option (Device W) × W × ℕ
  device_start none w = (none, w, 2 ^ 32 - 1)
  device_start (some dev) w =
      let (s, ret) = start_device (record { dev = dev; world = w }) in (some s.dev, s.world, ret)

  unfoldable pub device_stop :
      (rounds : ℕ) → Option (Device W) → W → Option (Option (Device W) × W × ℕ)
  device_stop rounds none w = some (none, w, 2 ^ 32 - 1)
  device_stop rounds (some dev) w = do
    result ← stop_device rounds (record { dev = dev; world = w })
    some (some result.0.dev, result.0.world, result.1)
