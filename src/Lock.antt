-- ===== src/Lock.antt =====
-- kernel/lib/lock.c: the mutex functions work on their copy of the pointer, 0 for NULL.
pub mod Spin
use beryllium.Base.{ℕ, zero, suc, Option, none, some, ◌==◌, if◌then◌else◌}

-- `while(mutex)`: nothing in the loop changes the pointer. `none` means that the rounds ran out.
unfoldable pub spin : ℕ → ℕ → Option (Unit {0})
spin zero mutex = none
spin (suc n) mutex = let rest = spin n mutex in if mutex == 0 then some tt else rest

-- `mutex_lock` within a number of rounds; the assignment after the loop is to the parameter.
unfoldable pub mutex_lock : ℕ → ℕ → Option (Unit {0})
unfolding spin
mutex_lock rounds mutex = if mutex == 0 then some tt else spin rounds mutex
