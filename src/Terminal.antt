-- ===== src/Terminal.antt =====
-- kernel/terminal.c: the cursor, and what a character does to the screen (kernel/video.c passes the
-- calls on to Textmode).
pub mod Bounds
pub mod Rows
mod Tests
use beryllium.Base.{
  ℕ, ◌+◌, ◌-◌, ◌*◌, ◌/◌, ◌%◌, ◌^◌, not, ◌&&◌, List, [], ◌∷◌, ltb, leb, ◌==◌, if◌then◌else◌,
}
use beryllium.Textmode
use beryllium.Textmode.{Screen}

pub record Terminal : Type 0 where
  pub term_x : ℕ
  pub term_y : ℕ
  pub screen : Screen

-- `scroll`.
pub scroll : Terminal → Terminal
scroll t =
    if leb 25 t.term_y then record t { term_y = 24; screen = Textmode.scroll 0 24 t.screen } else t

-- The ladder of `printc`: backspace, tab, return, newline, anything printable.
pub place : ℕ → Terminal → Terminal
place c t =
    if (c == 0x08) && not (t.term_x == 0)
    then record t { term_x = t.term_x - 1 }
    else if c == 0x09
    then record t { term_x = (t.term_x + 8) / 8 * 8 % 2 ^ 32 }
    else if c == 13
    then record t { term_x = 0 }
    else if c == 10
    then record t { term_x = 0; term_y = (t.term_y + 1) % 2 ^ 32 }
    else if leb 0x20 c
    then record t {
      term_x = (t.term_x + 1) % 2 ^ 32;
      screen = Textmode.write t.term_x t.term_y c t.screen;
    }
    else t

-- The end of a row.
pub wrap : Terminal → Terminal
wrap t = if leb 80 t.term_x then record t { term_x = 0; term_y = (t.term_y + 1) % 2 ^ 32 } else t

pub printc : ℕ → Terminal → Terminal
printc c t =
    let u = scroll (wrap (place c t)) in
    record u { screen = Textmode.setcursor u.term_x u.term_y u.screen }

-- `print`, of a text without its NUL.
pub print : List ℕ → Terminal → Terminal
print [] t = t
print (c ∷ cs) t = print cs (printc c t)
