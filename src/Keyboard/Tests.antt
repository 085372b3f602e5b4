-- ===== src/Keyboard/Tests.antt =====
-- kernel/arch/x86/drivers/keyboard.c: the theorems at concrete keys.
use beryllium.Base.{ℕ, ◌≡◌, refl, [], ◌∷◌}
use beryllium.Input.{shift_round, shift_from}
use beryllium.Keyboard.{Keyboard, started, typed, handler, read, key, poll, run}

-- Behind `kbdus` lies `kbdus_caps`, whose first bytes are no traps; here they are taken as zeros.
abbrev zeros : ℕ → ℕ
zeros n = 0

-- Shift down, "h", shift up, "i".
types_hi :
    (run zeros (key 0x2A ∷ key 35 ∷ key 0xAA ∷ key 23 ∷ poll 0 ∷ poll 0 ∷ []) started).1
    ≡ 72 ∷ 105 ∷ []
unfolding run handler typed read shift_from shift_round
types_hi = refl

abbrev stuck : Keyboard
stuck = record started { buffer_i = 1 }
