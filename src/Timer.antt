-- ===== src/Timer.antt =====
-- kernel/timer.c: the tick counters and the device that drives them. All fields are uint32_t.
use beryllium.Base.{ℕ, ◌+◌, ◌*◌, ◌%◌, ◌^◌, ◌==◌, if◌then◌else◌}

pub record Timer : Type 0 where
  pub hi : ℕ
  pub low : ℕ
  pub device : ℕ
  pub resolution : ℕ

abbrev pub boot : Timer
boot = record { hi = 0; low = 0; device = 0; resolution = 1 }

-- `timer_switchDevice`. The `default` branch calls the function again with 0, whose branch it is.
unfoldable pub switch_device : ℕ → Timer → Timer
switch_device device_id t =
    if device_id == 2
    then record t { device = 2; resolution = 1 }
    else record t { device = 0; resolution = 1 }

-- The two counters of `timer_recieveTick`; what it does next is in `Timing.recieve_tick`.
unfoldable pub count_tick : Timer → Timer
count_tick t =
    let hi' = (t.hi + 1) % 2 ^ 32 in
    if hi' % (t.resolution * 1000 % 2 ^ 32) == 0
    then record t { hi = hi'; low = (t.low + 1) % 2 ^ 32 }
    else record t { hi = hi' }
