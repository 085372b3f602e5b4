-- ===== src/Keyboard.antt =====
-- kernel/arch/x86/drivers/keyboard.c: scan codes to characters, and the buffer of characters.
-- The null `kbio_mutex` is never locked (Lock); interrupts are off while `kb_read` shifts.
pub mod Stuck
pub mod Bounds
mod Tests
use beryllium.Base.{
  ℕ, ◌+◌, ◌-◌, ◌%◌, ◌^◌, Bool, true, false, ◌||◌, List, [], ◌∷◌, ltb, ◌==◌, if◌then◌else◌, get_or,
  set, replicate,
}
use beryllium.Input.{shift_from}

-- The traps of the tables: KB_TRAP_CTL 1, KB_TRAP_LSHIFT 2, KB_TRAP_RSHIFT 3, KB_TRAP_ALT 4,
-- KB_CAPS 5 and KB_F1 6.
abbrev pub kbdus : List ℕ
kbdus =
    0 ∷ 27 ∷ 49 ∷ 50 ∷ 51 ∷ 52 ∷ 53 ∷ 54 ∷ 55 ∷ 56 ∷ 57 ∷ 48 ∷ 45 ∷ 61 ∷ 8 ∷ 9 ∷ 113 ∷ 119 ∷ 101
    ∷ 114 ∷ 116 ∷ 121 ∷ 117 ∷ 105 ∷ 111 ∷ 112 ∷ 91 ∷ 93 ∷ 10 ∷ 1 ∷ 97 ∷ 115 ∷ 100 ∷ 102 ∷ 103 ∷ 104
    ∷ 106 ∷ 107 ∷ 108 ∷ 59 ∷ 39 ∷ 96 ∷ 2 ∷ 92 ∷ 122 ∷ 120 ∷ 99 ∷ 118 ∷ 98 ∷ 110 ∷ 109 ∷ 44 ∷ 46 ∷ 47
    ∷ 3 ∷ 42 ∷ 4 ∷ 32 ∷ 5 ∷ 6 ∷ 0 ∷ 0 ∷ 0 ∷ 0 ∷ 0 ∷ 0 ∷ 0 ∷ 0 ∷ 0 ∷ 0 ∷ 0 ∷ 0 ∷ 0 ∷ 0 ∷ 45 ∷ 0 ∷ 0
    ∷ 0 ∷ 43 ∷ 0 ∷ 0 ∷ 0 ∷ 0 ∷ 0 ∷ 0 ∷ 0 ∷ 0 ∷ 0 ∷ 0 ∷ 0 ∷ 0 ∷ 0 ∷ 0 ∷ 0 ∷ 0 ∷ 0 ∷ 0 ∷ 0 ∷ 0 ∷ 0 ∷ 0
    ∷ 0 ∷ 0 ∷ 0 ∷ 0 ∷ 0 ∷ 0 ∷ 0 ∷ 0 ∷ 0 ∷ 0 ∷ 0 ∷ 0 ∷ 0 ∷ 0 ∷ 0 ∷ 0 ∷ 0 ∷ 0 ∷ 0 ∷ 0 ∷ 0 ∷ 0 ∷ 0 ∷ 0
    ∷ 0 ∷ 0 ∷ 0 ∷ []

abbrev pub kbdus_caps : List ℕ
kbdus_caps =
    0 ∷ 27 ∷ 33 ∷ 64 ∷ 35 ∷ 36 ∷ 37 ∷ 94 ∷ 38 ∷ 42 ∷ 40 ∷ 41 ∷ 95 ∷ 43 ∷ 8 ∷ 9 ∷ 81 ∷ 87 ∷ 69 ∷ 82
    ∷ 84 ∷ 89 ∷ 85 ∷ 73 ∷ 79 ∷ 80 ∷ 123 ∷ 125 ∷ 10 ∷ 1 ∷ 65 ∷ 83 ∷ 68 ∷ 70 ∷ 71 ∷ 72 ∷ 74 ∷ 75 ∷ 76
    ∷ 58 ∷ 34 ∷ 126 ∷ 2 ∷ 124 ∷ 90 ∷ 88 ∷ 67 ∷ 86 ∷ 66 ∷ 78 ∷ 77 ∷ 60 ∷ 62 ∷ 63 ∷ 3 ∷ 42 ∷ 4 ∷ 32
    ∷ 5 ∷ 6 ∷ 0 ∷ 0 ∷ 0 ∷ 0 ∷ 0 ∷ 0 ∷ 0 ∷ 0 ∷ 0 ∷ 0 ∷ 0 ∷ 0 ∷ 0 ∷ 0 ∷ 45 ∷ 0 ∷ 0 ∷ 0 ∷ 43 ∷ 0 ∷ 0
    ∷ 0 ∷ 0 ∷ 0 ∷ 0 ∷ 0 ∷ 0 ∷ 0 ∷ 0 ∷ 0 ∷ 0 ∷ 0 ∷ 0 ∷ 0 ∷ 0 ∷ 0 ∷ 0 ∷ 0 ∷ 0 ∷ 0 ∷ 0 ∷ 0 ∷ 0 ∷ 0 ∷ 0
    ∷ 0 ∷ 0 ∷ 0 ∷ 0 ∷ 0 ∷ 0 ∷ 0 ∷ 0 ∷ 0 ∷ 0 ∷ 0 ∷ 0 ∷ 0 ∷ 0 ∷ 0 ∷ 0 ∷ 0 ∷ 0 ∷ 0 ∷ 0 ∷ 0 ∷ 0 ∷ 0 ∷ []

-- The buffer, its index and the states of the modifier keys.
pub record Keyboard : Type 0 where
  pub buffer : List ℕ
  pub buffer_i : ℕ
  pub shift : Bool
  pub caps : Bool
  pub ctl : Bool
  pub extended : Bool

-- `sizeof(buffer)`.
abbrev pub size : ℕ
size = 0xFF

-- `kb_start` clears the buffer; the modifiers are as the kernel boots.
abbrev pub started : Keyboard
started = record {
  buffer = replicate size 0;
  buffer_i = 0;
  shift = false;
  caps = false;
  ctl = false;
  extended = false;
}

-- The branch of `kb_handler` for a key that is let go: `c` is what `kbdus[scancode]` reads behind the
-- table of 128 characters.
released : ℕ → Keyboard → Keyboard
released c k =
    if c == 1 then record k { ctl = true } else if c == 2 then record k { shift = true } else k

-- The character of a key that is pressed.
pub typed : ℕ → Keyboard → ℕ
typed scancode k =
    if k.shift || k.caps then get_or kbdus_caps scancode 0 else get_or kbdus scancode 0

-- The end of `kb_handler`: a key that is pressed.
pressed : ℕ → Keyboard → Keyboard
pressed scancode k = if k.buffer_i == size then k else record k {
  buffer = set k.buffer k.buffer_i (typed scancode k);
  buffer_i = (k.buffer_i + 1) % 2 ^ 32;
}

module _ (behind : ℕ → ℕ) where
  -- `kb_handler` at the scan code that the port returns; `behind` gives the bytes behind `kbdus`.
  pub handler : ℕ → Keyboard → Keyboard
  unfolding released pressed
  handler scancode k =
      if k.extended
      then record k { extended = false }
      else if scancode == 0xE0
      then record k { extended = true }
      else if scancode == 0xAA
      then record k { shift = false }
      else if scancode == 0x2A
      then record k { shift = true }
      else if ltb scancode 0x80
      then pressed scancode k
      else released (behind scancode) k

-- `kb_read`; `past` is the byte behind the buffer, which the last round of its loop reads.
pub read : (past : ℕ) → Keyboard → Keyboard × ℕ
read past k =
    let c = get_or k.buffer 0 0 in
    if c == 0 then (k, 0) else (
      record k {
        buffer = shift_from size 0 past (set k.buffer 0 0);
        buffer_i = (k.buffer_i + 2 ^ 32 - 1) % 2 ^ 32;
      },
      c,
    )

-- What happens to the keyboard, in order: an interrupt with a scan code, or a read with the byte
-- behind the buffer.
pub data Event : Type 0 where
  key : ℕ → Event
  poll : ℕ → Event

module _ (behind : ℕ → ℕ) where
  -- The state after the events, and what the reads returned.
  pub run : List Event → Keyboard → Keyboard × List ℕ
  run [] k = (k, [])
  run (key scancode ∷ es) k = run es (handler behind scancode k)
  run (poll past ∷ es) k = let (k', c) = read past k in let (k'', out) = run es k' in (k'', c ∷ out)
