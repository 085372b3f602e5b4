-- ===== src/Printf/Convert.antt =====
-- kernel/printf.c: the conversions of `do_printf`, its state 4.
use beryllium.Base.{
  ℕ, zero, suc, ◌+◌, ◌-◌, ◌/◌, ◌%◌, ◌^◌, Bool, true, false, not, ◌&&◌, ◌||◌, Option, none, some,
  List, [], ◌∷◌, ltb, leb, ◌==◌, if◌then◌else◌, length,
}
use beryllium.Printf.Output.{
  Flags, no_flags, word, text, State, emit, emit_all, pad_left, pad_right,
}

-- The character of a digit, in capitals or not.
unfoldable pub digit : Bool → ℕ → ℕ
digit ca temp = if ltb temp 10 then temp + 48 else if ca then temp + 55 else temp + 87

-- The `do` loop that fills the buffer from its end. The number has 32 bits and the radix is at least
-- 8, so that 11 rounds are enough (Printf.Digits).
unfoldable pub digits_from : (rounds : ℕ) → Bool → (radix num : ℕ) → List ℕ → List ℕ
digits_from zero ca radix num where' = where'
digits_from (suc n) ca radix num where' =
    let filled = digit ca (num % radix) ∷ where' in
    let rest = digits_from n ca radix (num / radix) filled in
    if num / radix == 0 then filled else rest

unfoldable pub digits : Bool → (radix num : ℕ) → List ℕ
digits ca radix num = digits_from 11 ca radix num []

-- From EMIT2 on: padding, the sign after padding with spaces, the characters, padding.
unfoldable pub emit_padded : (actual_wd : ℕ) → List ℕ → State → State
emit_padded actual_wd chars p =
    let pad : ℕ = (if p.flags.lz then 48 else 32) in
    let q = (if p.flags.lj then p else pad_left p.given_wd actual_wd pad p) in
    let given =
      (if p.flags.lj
        then p.given_wd
        else if ltb actual_wd p.given_wd
        then actual_wd
        else p.given_wd) in
    let r = (if p.flags.ws && not p.flags.lz then emit 45 q else q) in
    pad_right (if ltb given actual_wd then 0 else given - actual_wd) (emit_all chars r)

-- From EMIT on: the width, with the sign, which comes first if zeros are put in front.
unfoldable pub emit_field : List ℕ → State → State
emit_field chars p =
    let actual_wd = (if p.flags.ws then length chars + 1 else length chars) in
    let q = (if p.flags.ws && p.flags.lz then emit 45 p else p) in emit_padded actual_wd chars q

-- DO_NUM: the argument, its sign, its digits. Long, short and plain numbers are one word each.
unfoldable pub number : (radix : ℕ) → Flags → State → Option State
number radix flags p = elim p.args [
  | [] ↦ none
  | a ∷ rest ↦ elim a [
    | text s ↦ none
    | word num ↦
        let minus = flags.sg && leb (2 ^ 31) num in
        let flags' = (if minus then record flags { ws = true } else flags) in
        let num' = (if minus then 2 ^ 32 - num else num) in
        some (emit_field (digits flags.ca radix num') (record p { flags = flags'; args = rest }))
  ]
]

-- `%c` prints one character, or nothing if that is NUL, at a width of 1.
unfoldable pub character : State → Option State
character p = elim p.args [
  | [] ↦ none
  | a ∷ rest ↦ elim a [
    | text s ↦ none
    | word num ↦
        let c = num % 256 in
        some (
          emit_padded 1 (if c == 0 then [] else c ∷ [])
            (record p { flags = record (p.flags) { lz = false }; args = rest }))
  ]
]

-- `%s`.
unfoldable pub string : State → Option State
string p = elim p.args [
  | [] ↦ none
  | a ∷ rest ↦ elim a [
    | word num ↦ none
    | text s ↦
        some (emit_field s (record p { flags = record (p.flags) { lz = false }; args = rest }))
  ]
]

-- `state = flags = given_wd = 0`, which every conversion falls through to.
unfoldable pub reset : State → State
reset p = record p { state = 0; flags = no_flags; given_wd = 0 }

unfoldable pub reset_some : Option State → Option State
reset_some none = none
reset_some (some p) = some (reset p)

-- State 4. An argument that is missing or of the wrong kind is undefined behaviour, `none`.
unfoldable pub convert : ℕ → State → Option State
convert c p =
    if c == b'X'
    then reset_some (number 16 (record (p.flags) { ca = true }) p)
    else if (c == b'x') || (c == b'p') || (c == b'n')
    then reset_some (number 16 p.flags p)
    else if (c == b'd') || (c == b'i')
    then reset_some (number 10 (record (p.flags) { sg = true }) p)
    else if c == b'u'
    then reset_some (number 10 p.flags p)
    else if c == b'o'
    then reset_some (number 8 p.flags p)
    else if c == b'c'
    then reset_some (character p)
    else if c == b's'
    then reset_some (string p)
    else some (reset p)
