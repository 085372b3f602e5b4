-- ===== src/Terminal/Bounds.antt =====
-- kernel/terminal.c: the cursor stays on the screen.
use beryllium.Base.{ℕ, ◌+◌, ◌*◌, ◌≤◌, ◌<◌, ◌≡◌, ◌∙◌, arith}
use beryllium.Textmode.{Screen, put, write, setcursor}
use beryllium.Terminal.{Terminal, scroll, place, wrap, printc}
use beryllium.Terminal.Rows.{scroll_rows}

-- The cursor is on the screen of 80 x 25 cells.
pub record IsOnScreen (t : Terminal) : Type 0 where
  pub column : t.term_x < 80
  pub row : t.term_y < 25

-- The memory behind the cells of the screen is the same.
abbrev pub Same : (s u : Screen) → Type 0
Same s u = (i : ℕ) → 80 * 25 ≤ i → u.memory i ≡ s.memory i

-- Where `place` leaves the cursor.
pub record IsPlaced (t : Terminal) : Type 0 where
  pub column : t.term_x ≤ 87
  pub row : t.term_y ≤ 25
  pub corner : 80 ≤ t.term_x → t.term_y ≤ 24

place-IsPlaced : (c : ℕ) (t : Terminal) → IsOnScreen t → IsPlaced (place c t)
unfolding place
place-IsPlaced c t v = ground (arith, v.column, v.row)

place-Same : (c : ℕ) (t : Terminal) → IsOnScreen t → Same t.screen (place c t).screen
unfolding place write put
place-Same c t v i behind = ground (arith, v.column, v.row)

wrap-scroll-IsOnScreen : (t : Terminal) → IsPlaced t → IsOnScreen (scroll (wrap t))
unfolding scroll wrap
wrap-scroll-IsOnScreen t v = ground (arith, v.column, v.row, v.corner)

wrap-scroll-Same : (t : Terminal) → Same t.screen (scroll (wrap t)).screen
unfolding scroll wrap
wrap-scroll-Same t i behind = ground (arith, scroll_rows t.screen i)

-- `printc` of any byte keeps the cursor on the screen and changes no memory behind the 2000 cells of the
-- screen, neither by the write of the byte nor by a scroll; the cursor registers get the cell under the cursor.
pub printc-IsOnScreen :
    (c : ℕ) (t : Terminal)
    → IsOnScreen t
    → IsOnScreen (printc c t)
      × ((i : ℕ) → 80 * 25 ≤ i → (printc c t).screen.memory i ≡ t.screen.memory i)
      × ((printc c t).screen.cursor ≡ (printc c t).term_y * 80 + (printc c t).term_x)
unfolding printc setcursor
printc-IsOnScreen c t v =
    let u = wrap-scroll-IsOnScreen (place c t) (place-IsPlaced c t v) in
    (
      record { column = u.column; row = u.row },
      λ i behind. wrap-scroll-Same (place c t) i behind ∙ place-Same c t v i behind,
      omega (arith, u.column, u.row),
    )
