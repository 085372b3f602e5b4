-- ===== src/Textmode.antt =====
-- kernel/arch/x86/drivers/textmode.c, reached through the X86 branches of kernel/video.c: the screen
-- of 80 x 25 cells, each a character and an attribute byte. Coordinates are not negative here.
use beryllium.Base.{ℕ, zero, suc, ◌+◌, ◌-◌, ◌*◌, ◌%◌, ◌^◌, ◌==◌, if◌then◌else◌}

pub record Screen : Type 0 where
  -- the 16-bit cells of the memory from the start of the video memory on: nothing keeps a write inside the
  -- 2000 cells that are shown
  pub memory : ℕ → ℕ
  pub attribute : ℕ
  -- the cell number last sent to the cursor registers
  pub cursor : ℕ

-- An assignment to a cell of the memory.
unfoldable pub put : (i v : ℕ) → (ℕ → ℕ) → ℕ → ℕ
put i v m j = if i == j then v else m j

-- `textmode_setcursor`: the two bytes that the ports get are those of the 16-bit location.
unfoldable pub setcursor : (x y : ℕ) → Screen → Screen
setcursor x y s = record s { cursor = (y * 80 + x) % 2 ^ 16 }

-- A character with the attribute byte above it: `data | attribute` of bytes that do not overlap.
abbrev pub cell : (attribute c : ℕ) → ℕ
cell attribute c = attribute * 256 + c

-- `textmode_write`.
unfoldable pub write : (x y c : ℕ) → Screen → Screen
write x y c s = record s { memory = put (y * 80 + x) (cell s.attribute c) s.memory }

-- `textmode_write_color`.
unfoldable pub write_color : (x y c attr : ℕ) → Screen → Screen
write_color x y c attr s = record s { memory = put (y * 80 + x) (cell attr c) s.memory }

-- `textmode_setcolor`, with the background above the four bits of the foreground in a byte.
unfoldable pub setcolor : (back fore : ℕ) → Screen → Screen
setcolor back fore s = record s { attribute = (back * 16 + fore % 16) % 256 }

-- `textmode_resetcolor`.
unfoldable pub resetcolor : Screen → Screen
resetcolor s = record s { attribute = 15 }

-- The first loop of `textmode_scroll`: `i` runs over the given number of cells.
unfoldable pub move_up : (rounds i : ℕ) → (ℕ → ℕ) → ℕ → ℕ
move_up zero i m = m
move_up (suc n) i m = move_up n (i + 1) (put i (m (i + 80)) m)

-- The second loop.
unfoldable pub blank_out : (rounds i blank : ℕ) → (ℕ → ℕ) → ℕ → ℕ
blank_out zero i blank m = m
blank_out (suc n) i blank m = blank_out n (i + 1) blank (put i blank m)

-- `textmode_scroll`.
unfoldable pub scroll : (from to : ℕ) → Screen → Screen
scroll from to s = record s {
  memory =
      blank_out 80 (to * 80) (cell s.attribute 0x20)
        (move_up (to * 80 - from * 80) (from * 80) s.memory);
}

-- `textmode_clear`: 80 * 24 * 2 bytes of zero, which is 80 * 24 cells.
unfoldable pub clear : Screen → Screen
clear s = record s { memory = blank_out (80 * 24) 0 0 s.memory }
