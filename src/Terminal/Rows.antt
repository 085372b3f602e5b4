-- ===== src/Terminal/Rows.antt =====
-- kernel/arch/x86/drivers/textmode.c and kernel/terminal.c: what is in the memory afterwards.
use beryllium.Base.{
  ℕ, zero, suc, ◌+◌, ◌-◌, ◌*◌, ◌≤◌, ◌<◌, ◌≡◌, arith, if◌then◌else◌, leb, ltb, ◌&&◌, ◌==◌,
}
use beryllium.Textmode
use beryllium.Textmode.{Screen, cell, put, write, move_up, blank_out, setcursor, clear}
use beryllium.Terminal.{Terminal, scroll, place, wrap, printc}

move_up_at :
    (n i j : ℕ) (m : ℕ → ℕ)
    → move_up n i m j ≡ (if leb i j && ltb j (i + n) then m (j + 80) else m j)
unfolding move_up put
move_up_at zero i j m = ground arith
move_up_at (suc n) i j m = ground (arith, move_up_at n (i + 1) j (put i (m (i + 80)) m))

blank_out_at :
    (n i blank j : ℕ) (m : ℕ → ℕ)
    → blank_out n i blank m j ≡ (if leb i j && ltb j (i + n) then blank else m j)
unfolding blank_out put
blank_out_at zero i blank j m = ground arith
blank_out_at (suc n) i blank j m = ground (arith, blank_out_at n (i + 1) blank j (put i blank m))

-- `textmode_scroll(0, 24)`: every cell of the upper 24 rows gets the cell below it, every cell of the last row is a
-- space in the current attribute, and nothing behind the screen changes.
pub scroll_rows :
    (s : Screen) (i : ℕ)
    → (Textmode.scroll 0 24 s).memory i ≡ (
        if ltb i (80 * 24)
        then s.memory (i + 80)
        else if ltb i (80 * 25)
        then cell s.attribute 0x20
        else s.memory i)
unfolding Textmode.scroll
scroll_rows s i =
    let moved = move_up (24 * 80 - 0 * 80) (0 * 80) s.memory in
    ground (
      arith,
      blank_out_at 80 (24 * 80) (cell s.attribute 0x20) i moved,
      move_up_at (24 * 80 - 0 * 80) (0 * 80) i s.memory,
    )

-- `textmode_clear`: the upper 24 rows are cleared, and everything behind them is left as it was.
pub clear_rows :
    (s : Screen) (i : ℕ) → (clear s).memory i ≡ (if ltb i (80 * 24) then 0 else s.memory i)
unfolding clear
clear_rows s i = ground (arith, blank_out_at (80 * 24) 0 0 i s.memory)

-- `printc` of a printable byte, with the cursor in one of the 25 rows and not in the last column, writes it
-- under the cursor in the current attribute, changes no other cell, and moves on by one column.
pub printc_printable :
    (c : ℕ) (t : Terminal) (i : ℕ)
    → t.term_y < 25
    → 0x20 ≤ c
    → t.term_x < 79
    → ((printc c t).screen.memory i
        ≡ (if t.term_y * 80 + t.term_x == i then cell t.screen.attribute c else t.screen.memory i))
      × ((printc c t).term_x ≡ t.term_x + 1)
      × ((printc c t).term_y ≡ t.term_y)
unfolding printc place wrap scroll write setcursor put
printc_printable c t i row printable room = ground arith

-- `printc` of a newline in the last row scrolls the screen by one row and leaves the cursor at the
-- start of that row.
pub printc_newline_scrolls :
    (t : Terminal)
    → t.term_y ≡ 24
    → ((printc 10 t).screen.memory ≡ (Textmode.scroll 0 24 t.screen).memory)
      × ((printc 10 t).term_x ≡ 0)
      × ((printc 10 t).term_y ≡ 24)
unfolding printc place wrap scroll setcursor
printc_newline_scrolls t last = ground arith
