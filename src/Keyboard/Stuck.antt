-- ===== src/Keyboard/Stuck.antt =====
-- kernel/arch/x86/drivers/keyboard.c: a key without a character stops the keyboard.
use beryllium.Base.{
  ℕ, zero, suc, ◌≤◌, ◌<◌, ◌≡◌, ◌≢◌, length, get_or-set_self, refl, List, [], ◌∷◌, arith, get_or,
  set, false,
}
use beryllium.Keyboard.{Keyboard, size, kbdus, typed, handler, read, Event, key, poll, run}
use beryllium.Keyboard.Bounds.{IsInside}

-- A zero stands first in the buffer, which is not empty.
pub record IsStuck (k : Keyboard) : Type 0 where
  pub first : get_or k.buffer 0 0 ≡ 0
  pub waiting : 0 < k.buffer_i
  pub index : k.buffer_i ≤ size

set-head : (xs : List ℕ) (i v : ℕ) → 0 < i → get_or (set xs i v) 0 0 ≡ get_or xs 0 0
set-head [] i v h = refl
set-head (x ∷ xs) zero v h = absurd (omega arith)
set-head (x ∷ xs) (suc i) v h = refl

handler-IsStuck :
    (behind : ℕ → ℕ) (scancode : ℕ) (k : Keyboard) → IsStuck k → IsStuck (handler behind scancode k)
unfolding handler
handler-IsStuck behind scancode k s =
    ground (arith, set-head k.buffer k.buffer_i (typed scancode k))

read-stuck : (past : ℕ) (k : Keyboard) → IsStuck k → read past k ≡ (k, 0)
unfolding read
read-stuck past k s = ground arith

abbrev pub AllZero : List ℕ → Type 0
AllZero [] = Unit {0}
AllZero (x ∷ xs) = (x ≡ 0) × AllZero xs

-- Once a zero stands first in a buffer that is not empty, no sequence of scan codes and reads brings
-- another character out: every `kb_read` returns 0.
pub run-AllZero :
    (behind : ℕ → ℕ) (es : List Event) (k : Keyboard)
    → IsStuck k
    → AllZero (run behind es k).1 × IsStuck (run behind es k).0
unfolding run
run-AllZero behind [] k s = (tt, s)
run-AllZero behind (key scancode ∷ es) k s =
    run-AllZero behind es (handler behind scancode k) (handler-IsStuck behind scancode k s)
run-AllZero behind (poll past ∷ es) k s =
    rw (read-stuck past k s) ((refl, (run-AllZero behind es k s).0), (run-AllZero behind es k s).1)

set-zero : (xs : List ℕ) (v : ℕ) → 0 < length xs → get_or (set xs 0 v) 0 0 ≡ v
set-zero xs v h = get_or-set_self xs 0 v 0 h

-- On an empty buffer with no modifier held, a pressed key whose entry in `kbdus` is 0 (F2, for
-- instance) leaves the keyboard in that state.
pub handler_unmapped :
    (behind : ℕ → ℕ) (scancode : ℕ) (k : Keyboard)
    → IsInside k
    → k.buffer_i ≡ 0
    → k.extended ≡ false
    → k.shift ≡ false
    → k.caps ≡ false
    → scancode < 0x80
    → scancode ≢ 0x2A
    → get_or kbdus scancode 0 ≡ 0
    → IsStuck (handler behind scancode k)
unfolding handler typed
handler_unmapped behind scancode k v e x s c code other unmapped =
    ground (arith, set-zero k.buffer (typed scancode k))
