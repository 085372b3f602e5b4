-- ===== src/Lock/Spin.antt =====
-- kernel/lib/lock.c: when `mutex_lock` returns.
use beryllium.Base.{ℕ, zero, suc, ◌≡◌, ◌≢◌, refl, ◌↔◌, none, some, arith}
use beryllium.Lock.{spin, mutex_lock}

spin-none : (n mutex : ℕ) → mutex ≢ 0 → spin n mutex ≡ none
unfolding spin
spin-none zero mutex ne = refl
spin-none (suc n) mutex ne = ground (arith, spin-none n mutex ne)

-- `mutex_lock` of NULL returns at once, also when it was called before: it excludes nobody. Of any
-- other pointer it never returns, whatever the mutex holds.
pub mutex_lock_iff : (n mutex : ℕ) → (mutex_lock n mutex ≡ some tt) ↔ (mutex ≡ 0)
unfolding mutex_lock
mutex_lock_iff n mutex = ground (arith, spin-none n mutex)
