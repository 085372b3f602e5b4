-- ===== src/Printf/Count.antt =====
-- kernel/printf.c: the number of characters that `do_printf` returns.
use beryllium.Base.{
  ℕ, zero, suc, ◌%◌, ◌^◌, ◌≡◌, refl, sym, ap, ◌∙◌, inl, inr, Bool, true, false, Option, none, some,
  List, [], ◌∷◌, arith, ltb, leb, ◌==◌, ◌||◌, ◌&&◌, if◌then◌else◌, Bool-cases, Option-cases, length,
  length-append,
}
use beryllium.Printf.Output.{
  Flags, Arg, word, text, State, start, emit, emit_all, pad_left, pad_right,
}
use beryllium.Printf.Convert.{
  emit_padded, emit_field, number, character, string, reset, reset_some, convert,
}
use beryllium.Printf.{modifier, width, flag, plain, scan, run, do_printf}

-- `count` counts the characters put out, as an `unsigned`.
record IsCounted (p : State) : Type 0 where
  counted : p.count ≡ length p.out % 2 ^ 32

if-IsCounted : (b : Bool) {p q : State} → IsCounted p → IsCounted q → IsCounted (if b then p else q)
if-IsCounted true h k = h
if-IsCounted false h k = k

emit-IsCounted : (c : ℕ) (p : State) → IsCounted p → IsCounted (emit c p)
unfolding emit
emit-IsCounted c p h = record { counted = omega (arith, length-append p.out (c ∷ []), h.counted) }

emit_all-IsCounted : (cs : List ℕ) (p : State) → IsCounted p → IsCounted (emit_all cs p)
unfolding emit_all
emit_all-IsCounted [] p h = h
emit_all-IsCounted (c ∷ cs) p h = emit_all-IsCounted cs (emit c p) (emit-IsCounted c p h)

pad_left-IsCounted :
    (given actual pad : ℕ) (p : State) → IsCounted p → IsCounted (pad_left given actual pad p)
unfolding pad_left
pad_left-IsCounted zero actual pad p h = h
pad_left-IsCounted (suc given) actual pad p h = elim (Bool-cases (ltb actual (suc given))) [
  | inl more ↦ rw more (pad_left-IsCounted given actual pad (emit pad p) (emit-IsCounted pad p h))
  | inr stop ↦ rw stop h
]

pad_right-IsCounted : (given : ℕ) (p : State) → IsCounted p → IsCounted (pad_right given p)
unfolding pad_right
pad_right-IsCounted zero p h = h
pad_right-IsCounted (suc given) p h = pad_right-IsCounted given (emit 32 p) (emit-IsCounted 32 p h)

emit_padded-IsCounted :
    (actual : ℕ) (chars : List ℕ) (p : State) → IsCounted p → IsCounted (emit_padded actual chars p)
unfolding emit_padded
emit_padded-IsCounted actual chars p h =
    let pad : ℕ = (if p.flags.lz then 48 else 32) in
    let padded : IsCounted (if p.flags.lj then p else pad_left p.given_wd actual pad p) =
      if-IsCounted p.flags.lj h (pad_left-IsCounted p.given_wd actual pad p h) in
    pad_right-IsCounted _ _
      (emit_all-IsCounted chars _ (if-IsCounted _ (emit-IsCounted 45 _ padded) padded))

emit_field-IsCounted : (chars : List ℕ) (p : State) → IsCounted p → IsCounted (emit_field chars p)
unfolding emit_field
emit_field-IsCounted chars p h =
    emit_padded-IsCounted _ chars _ (if-IsCounted _ (emit-IsCounted 45 p h) h)

-- What a step of the scan keeps, if it has an outcome.
data KeepsCount : Option State → Type 0 where
  fault : KeepsCount none
  kept : {p : State} → IsCounted p → KeepsCount (some p)

KeepsCount-IsCounted : {p : State} → KeepsCount (some p) → IsCounted p
KeepsCount-IsCounted (kept h) = h

number-KeepsCount :
    (radix : ℕ) (flags : Flags) (p : State) → IsCounted p → KeepsCount (number radix flags p)
unfolding number
number-KeepsCount radix flags p h = go p.args refl
  where
    go : (args : List Arg) → p.args ≡ args → KeepsCount (number radix flags p)
    go [] e = rw (e, number) fault
    go (text s ∷ rest) e = rw (e, number) fault
    go (word num ∷ rest) e =
        rw (e, number) (kept (emit_field-IsCounted _ _ (record { counted = h.counted })))

character-KeepsCount : (p : State) → IsCounted p → KeepsCount (character p)
unfolding character
character-KeepsCount p h = go p.args refl
  where
    go : (args : List Arg) → p.args ≡ args → KeepsCount (character p)
    go [] e = rw (e, character) fault
    go (text s ∷ rest) e = rw (e, character) fault
    go (word num ∷ rest) e =
        rw (e, character) (kept (emit_padded-IsCounted _ _ _ (record { counted = h.counted })))

string-KeepsCount : (p : State) → IsCounted p → KeepsCount (string p)
unfolding string
string-KeepsCount p h = go p.args refl
  where
    go : (args : List Arg) → p.args ≡ args → KeepsCount (string p)
    go [] e = rw (e, string) fault
    go (text s ∷ rest) e =
        rw (e, string) (kept (emit_field-IsCounted _ _ (record { counted = h.counted })))
    go (word num ∷ rest) e = rw (e, string) fault

reset_some-KeepsCount : (o : Option State) → KeepsCount o → KeepsCount (reset_some o)
unfolding reset_some reset
reset_some-KeepsCount none h = fault
reset_some-KeepsCount (some p) (kept h) = kept (record { counted = h.counted })

if-KeepsCount :
    (b : Bool) {o r : Option State} → KeepsCount o → KeepsCount r → KeepsCount (if b then o else r)
if-KeepsCount true h k = h
if-KeepsCount false h k = k

reset-IsCounted : (p : State) → IsCounted p → IsCounted (reset p)
unfolding reset
reset-IsCounted p h = record { counted = h.counted }

convert-KeepsCount : (c : ℕ) (p : State) → IsCounted p → KeepsCount (convert c p)
unfolding convert
convert-KeepsCount c p h =
    let num = λ (radix : ℕ) (f : Flags). reset_some-KeepsCount _ (number-KeepsCount radix f p h) in
    if-KeepsCount (c == b'X') (num 16 (record (p.flags) { ca = true })) (
      if-KeepsCount ((c == b'x') || (c == b'p') || (c == b'n')) (num 16 p.flags) (
        if-KeepsCount ((c == b'd') || (c == b'i')) (num 10 (record (p.flags) { sg = true })) (
          if-KeepsCount (c == b'u') (num 10 p.flags) (
            if-KeepsCount (c == b'o') (num 8 p.flags) (
              if-KeepsCount (c == b'c') (reset_some-KeepsCount _ (character-KeepsCount p h)) (
                if-KeepsCount (c == b's') (reset_some-KeepsCount _ (string-KeepsCount p h))
                  (kept (reset-IsCounted p h))))))))

-- The same output and count, whatever else has changed.
same : {p q : State} → IsCounted p → q.out ≡ p.out → q.count ≡ p.count → IsCounted q
same h e f = record { counted = f ∙ h.counted ∙ ap (λ o. length o % 2 ^ 32) (sym e) }

modifier-KeepsCount : (c : ℕ) (p : State) → IsCounted p → KeepsCount (modifier c p)
unfolding modifier
modifier-KeepsCount c p h = if-KeepsCount (c == b'F') (kept (same h refl refl)) (
    if-KeepsCount (c == b'N') (kept (same h refl refl)) (
      if-KeepsCount (c == b'l') (kept (same h refl refl))
        (if-KeepsCount (c == b'h') (kept (same h refl refl)) (convert-KeepsCount c p h))))

width-KeepsCount : (c : ℕ) (p : State) → IsCounted p → KeepsCount (width c p)
unfolding width
width-KeepsCount c p h =
    if-KeepsCount (leb 48 c && leb c 57) (kept (same h refl refl)) (modifier-KeepsCount c p h)

flag-KeepsCount : (c : ℕ) (p : State) → IsCounted p → KeepsCount (flag c p)
unfolding flag
flag-KeepsCount c p h =
    if-KeepsCount (c == b'%') (kept (reset-IsCounted _ (emit-IsCounted c p h))) (
      if-KeepsCount (c == b'-')
        (kept (if-IsCounted p.flags.lj (reset-IsCounted p h) (same h refl refl)))
        (if-KeepsCount (c == b'0') (kept (same h refl refl)) (width-KeepsCount c p h)))

scan-KeepsCount : (c : ℕ) (p : State) → IsCounted p → KeepsCount (scan c p)
unfolding scan plain
scan-KeepsCount c p h =
    let h' : IsCounted (record p { inside = false }) = same h refl refl in
    if-KeepsCount (p.state == 0)
      (if-KeepsCount (c == b'%') (kept (same h refl refl)) (kept (emit-IsCounted c _ h')))
      (if-KeepsCount (p.state == 1) (flag-KeepsCount c _ h') (
        if-KeepsCount (p.state == 2) (width-KeepsCount c _ h') (
          if-KeepsCount (p.state == 3) (modifier-KeepsCount c _ h') (kept (reset-IsCounted _ h')))))

run-KeepsCount : (fmt : List ℕ) (p : State) → IsCounted p → KeepsCount (run fmt p)
unfolding run
run-KeepsCount [] p h = if-KeepsCount p.inside fault (kept h)
run-KeepsCount (c ∷ cs) p h =
    let step = scan-KeepsCount c p h in
    elim (Option-cases (scan c p)) [
      | inl e ↦ rw (e, run) fault
      | inr (q, e) ↦ rw (e, run) (run-KeepsCount cs q (KeepsCount-IsCounted (rw e at step)))
    ]

-- Whatever the format and the arguments, the number that `do_printf` returns is the number of
-- characters that it has put out, as an `unsigned`.
pub do_printf_count :
    (fmt : List ℕ) (args : List Arg) (out : List ℕ) (n : ℕ)
    → do_printf fmt args ≡ some (out, n)
    → n ≡ length out % 2 ^ 32
unfolding do_printf start
do_printf_count fmt args out n h =
    let all_counted = run-KeepsCount fmt (start args) (record { counted = refl }) in
    elim (Option-cases (run fmt (start args))) [
      | inl e ↦ cc (rw (e, do_printf) at h)
      | inr (p, e) ↦
          let counted = (KeepsCount-IsCounted (rw e at all_counted)).counted in
          ground (arith, e, counted)
    ]
