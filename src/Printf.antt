-- ===== src/Printf.antt =====
-- kernel/printf.c: `do_printf`, a state machine over the characters of a format without its NUL.
-- `vsprintf`, `vprintf`, `serial_printf` and the rest differ in the function that gets each character.
pub mod Output
pub mod Convert
pub mod Count
pub mod Digits
pub mod Fields
pub mod Formats
mod Tests
use beryllium.Base.{
  ℕ, ◌+◌, ◌-◌, ◌*◌, ◌%◌, ◌^◌, Bool, true, false, ◌&&◌, Option, none, some, List, [], ◌∷◌, leb, ◌==◌,
  if◌then◌else◌,
}
use Output.{Flags, Arg, State, start, emit}
use Convert.{reset, convert}

-- State 3: modifiers.
modifier : ℕ → State → Option State
modifier c p =
    if c == b'F'
    then some (record p { state = 3; flags = record (p.flags) { fp = true } })
    else if c == b'N'
    then some (record p { state = 3 })
    else if c == b'l'
    then some (record p { state = 3; flags = record (p.flags) { long = true } })
    else if c == b'h'
    then some (record p { state = 3; flags = record (p.flags) { short = true } })
    else convert c p

-- State 2: the field width.
width : ℕ → State → Option State
unfolding modifier
width c p =
    if leb 48 c && leb c 57
    then some (record p { state = 2; given_wd = (10 * p.given_wd + (c - 48)) % 2 ^ 32 })
    else modifier c p

-- State 1: flags. After a `0` the `switch` goes on in state 2 with the next character.
flag : ℕ → State → Option State
unfolding width
flag c p =
    if c == b'%'
    then some (reset (emit c p))
    else if c == b'-'
    then some (if p.flags.lj then reset p else record p { flags = record (p.flags) { lj = true } })
    else if c == b'0'
    then some (record p { state = 2; flags = record (p.flags) { lz = true }; inside = true })
    else width c p

-- State 0: anything but `%` is echoed; after a `%` the `switch` goes on in state 1.
plain : ℕ → State → Option State
plain c p = if c == b'%' then some (record p { state = 1; inside = true }) else some (emit c p)

-- The `switch` at a character.
scan : ℕ → State → Option State
unfolding plain flag width modifier
scan c p =
    let q = record p { inside = false } in
    if p.state == 0
    then plain c q
    else if p.state == 1
    then flag c q
    else if p.state == 2
    then width c q
    else if p.state == 3
    then modifier c q
    else some (reset q)

-- The loop. At the end of the format inside the `switch`, the NUL is taken for a conversion and the
-- loop goes on behind it: `none`.
pub run : List ℕ → State → Option State
run [] p = if p.inside then none else some p
run (c ∷ cs) p = elim (scan c p) [ none ↦ none | some q ↦ run cs q ]

-- What is put out, and the count that is returned.
pub do_printf : List ℕ → List Arg → Option (List ℕ × ℕ)
do_printf fmt args = elim (run fmt (start args)) [ none ↦ none | some p ↦ some (p.out, p.count) ]
