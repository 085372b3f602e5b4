-- ===== src/Keyboard/Bounds.antt =====
-- kernel/arch/x86/drivers/keyboard.c: the buffer is never written past its end.
use beryllium.Base.{ℕ, ◌≤◌, ◌≡◌, arith, length, length-set}
use beryllium.Keyboard.{Keyboard, size, typed, handler}

-- The index is in the buffer or just behind it.
pub record IsInside (k : Keyboard) : Type 0 where
  pub cells : length k.buffer ≡ size
  pub index : k.buffer_i ≤ size

-- `kb_handler` keeps the index within the buffer of 255 bytes, whatever the scan code and whatever
-- lies behind its table, so its write is in bounds; at a full buffer it changes no byte.
pub handler-IsInside :
    (behind : ℕ → ℕ) (scancode : ℕ) (k : Keyboard)
    → IsInside k
    → IsInside (handler behind scancode k)
      × (k.buffer_i ≡ size → (handler behind scancode k).buffer ≡ k.buffer)
unfolding handler
handler-IsInside behind scancode k v =
    ground (arith, length-set k.buffer k.buffer_i (typed scancode k))
