-- ===== src/Terminal/Tests.antt =====
-- kernel/terminal.c and kernel/arch/x86/drivers/textmode.c: the theorems at a blank screen.
use beryllium.Base.{ℕ, ◌+◌, ◌*◌, ◌≡◌, refl, [], ◌∷◌, arith, ◌≤◌}
use beryllium.Textmode
use beryllium.Textmode.{Screen, cell, clear, setcursor, write}
use beryllium.Terminal.{Terminal, scroll, place, wrap, printc, print}
use beryllium.Terminal.Bounds.{IsOnScreen, printc-IsOnScreen}
use beryllium.Terminal.Rows.{printc_newline_scrolls}

abbrev blank : Screen
blank = record { memory = λ i. 0x0F20; attribute = 0x0F; cursor = 0 }

abbrev at_position : ℕ → ℕ → Terminal
at_position x y = record { term_x = x; term_y = y; screen = blank }

-- "a", a tab, a newline.
prints : (print (97 ∷ 9 ∷ 10 ∷ []) (at_position 0 0)).term_y ≡ 1
unfolding print printc place wrap scroll setcursor write
prints = refl

printc-IsOnScreen_example :
    IsOnScreen (printc 97 (at_position 79 24))
    × ((i : ℕ) → 80 * 25 ≤ i → (printc 97 (at_position 79 24)).screen.memory i ≡ 0x0F20)
    × ((printc 97 (at_position 79 24)).screen.cursor
        ≡ (printc 97 (at_position 79 24)).term_y * 80 + (printc 97 (at_position 79 24)).term_x)
printc-IsOnScreen_example =
    printc-IsOnScreen 97 (at_position 79 24) (record { column = omega arith; row = omega arith })

printc_newline_scrolls_example :
    ((printc 10 (at_position 5 24)).screen.memory ≡ (Textmode.scroll 0 24 blank).memory)
    × ((printc 10 (at_position 5 24)).term_x ≡ 0)
    × ((printc 10 (at_position 5 24)).term_y ≡ 24)
printc_newline_scrolls_example = printc_newline_scrolls (at_position 5 24) refl
