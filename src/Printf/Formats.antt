-- ===== src/Printf/Formats.antt =====
-- kernel/printf.c: what `do_printf` does with whole formats.
use mathlib.Core.List.{append-nil}
use beryllium.Base.{
  ℕ, ◌+◌, ◌-◌, ◌%◌, ◌^◌, ◌<◌, ◌≡◌, refl, ap, ◌∙◌, inl, inr, Bool, true, false, ◌||◌, Option, none,
  some, List, [], ◌∷◌, ◌++◌, arith, ltb, leb, ◌==◌, if◌then◌else◌, Bool-cases, length,
}
use beryllium.Printf.Output.{no_flags, Arg, word, State, start, emit, emit_all, pad_left, pad_right}
use beryllium.Printf.Convert.{digits, emit_padded, emit_field, number, convert, reset, reset_some}
use beryllium.Printf.Count.{do_printf_count}
use beryllium.Printf.Digits.{value, value-digits}
use beryllium.Printf.Fields.{out-emit_all}
use beryllium.Printf.{modifier, width, flag, plain, scan, run, do_printf}

-- Whether a `%` stands in a format.
unfoldable pub has_percent : List ℕ → Bool
has_percent [] = false
has_percent (c ∷ cs) = (c == 37) || has_percent cs

-- Between two conversions.
at_plain : State → State
at_plain p = record p { state = 0; inside = false }

scan-plain :
    (c : ℕ) (p : State) → (c == 37) ≡ false → scan c (at_plain p) ≡ some (at_plain (emit c p))
unfolding scan plain at_plain emit
scan-plain c p h = rw h refl

-- The scan of characters that are not `%`, with the text behind them still to come.
run-append :
    (fmt rest : List ℕ) (p : State)
    → has_percent fmt ≡ false
    → run (fmt ++ rest) (at_plain p) ≡ run rest (at_plain (emit_all fmt p))
unfolding has_percent run emit_all
run-append [] rest p h = refl
run-append (c ∷ cs) rest p h = elim (Bool-cases (c == 37)) [
  | inl e ↦ cc (rw e at h)
  | inr e ↦ rw (scan-plain c p e, run) (run-append cs rest (emit c p) (rw e at h))
]

do_printf-plain :
    (fmt : List ℕ) (args : List Arg)
    → has_percent fmt ≡ false
    → do_printf fmt args ≡ some (fmt, (emit_all fmt (start args)).count)
unfolding do_printf run start at_plain
do_printf-plain fmt args h =
    let scanned = rw (append-nil fmt) at (run-append fmt [] (start args) h) in
    let echoed : (emit_all fmt (start args)).out ≡ fmt = out-emit_all fmt (start args) in
    rw (scanned, do_printf) (ap (λ o. some (o, (emit_all fmt (start args)).count)) echoed)

do_printf-percent :
    (fmt : List ℕ) (args : List Arg)
    → has_percent fmt ≡ false
    → do_printf (fmt ++ (37 ∷ [])) args ≡ none
unfolding do_printf run start at_plain scan plain
do_printf-percent fmt args h = rw (run-append fmt (37 ∷ []) (start args) h, do_printf) refl

-- A format without `%` is put out as it is, with its length as the count, and no argument is read;
-- a `%` at its end makes `do_printf` read behind the format's NUL, whatever the arguments.
pub do_printf-append :
    (fmt : List ℕ) (args : List Arg)
    → has_percent fmt ≡ false
    → (do_printf fmt args ≡ some (fmt, length fmt % 2 ^ 32))
      × (do_printf (fmt ++ (37 ∷ [])) args ≡ none)
do_printf-append fmt args h =
    let plain = do_printf-plain fmt args h in
    let count = do_printf_count fmt args fmt _ plain in
    (plain ∙ ap (λ n. some (fmt, n)) count, do_printf-percent fmt args h)

no_gap :
    (actual : ℕ)
    → let given = (if ltb actual 0 then actual else 0) in
      (if ltb given actual then 0 else given - actual) ≡ 0
no_gap actual = ground arith

emit_field-signed :
    (ws : Bool) (chars : List ℕ) (p : State)
    → let f = record no_flags { sg = true; ws = ws } in
      emit_field chars (record p { flags = f; given_wd = 0 })
      ≡ emit_all chars (
          if ws
          then emit 45 (record p { flags = f; given_wd = 0 })
          else record p { flags = f; given_wd = 0 })
unfolding emit_field emit_padded pad_left pad_right
emit_field-signed true chars p =
    ap
      (λ k. pad_right k (
        emit_all chars
          (emit 45 (record p { flags = record no_flags { sg = true; ws = true }; given_wd = 0 }))))
      (no_gap (length chars + 1))
emit_field-signed false chars p =
    ap
      (λ k.
        pad_right k
          (emit_all chars (record p { flags = record no_flags { sg = true }; given_wd = 0 })))
      (no_gap (length chars))

inside-emit_all : (cs : List ℕ) (p : State) → (emit_all cs p).inside ≡ p.inside
unfolding emit_all emit
inside-emit_all [] p = refl
inside-emit_all (c ∷ cs) p = inside-emit_all cs (emit c p)

-- The end of a format, behind a conversion.
finish : State → Option (List ℕ × ℕ)
finish p = elim (if p.inside then none else some (reset p)) [
  | none ↦ none
  | some q ↦ some (q.out, q.count)
]

-- The state before the number's digits are put out.
before : Bool → State
before negative = record (start []) {
  state = 1;
  flags =
      if negative then record no_flags { sg = true; ws = true } else record no_flags { sg = true };
}

signed :
    (negative : Bool) (chars : List ℕ)
    → (n : ℕ) × (finish (emit_field chars (before negative))
        ≡ some ((if negative then 45 ∷ chars else chars), n))
unfolding finish before start reset emit
signed true chars =
    let q = emit 45 (before true) in
    let inside : (emit_all chars q).inside ≡ false = inside-emit_all chars q in
    let put : (emit_all chars q).out ≡ 45 ∷ chars = out-emit_all chars q in
    (
      (emit_all chars q).count,
      ap finish (emit_field-signed true chars (before true)) ∙ rw (inside, put) refl,
    )
signed false chars =
    let q = before false in
    let inside : (emit_all chars q).inside ≡ false = inside-emit_all chars q in
    let put : (emit_all chars q).out ≡ chars = out-emit_all chars q in
    (
      (emit_all chars q).count,
      ap finish (emit_field-signed false chars (before false)) ∙ rw (inside, put) refl,
    )

-- `%d` puts out a 32-bit number in two's complement: a `-` if its top bit is set, and the digits of
-- its magnitude, which read back as that.
pub do_printf_decimal :
    (num : ℕ)
    → num < 2 ^ 32
    → (chars : List ℕ) × (n : ℕ) × (do_printf (37 ∷ (100 ∷ [])) (word num ∷ [])
        ≡ some ((if leb (2 ^ 31) num then 45 ∷ chars else chars), n))
      × (value 10 0 chars ≡ (if leb (2 ^ 31) num then 2 ^ 32 - num else num))
unfolding do_printf run start scan plain flag width modifier convert number reset_some reset finish
    before
do_printf_decimal num h =
    let negative = leb (2 ^ 31) num in
    let chars = digits false 10 (if negative then 2 ^ 32 - num else num) in
    let (n, e) = signed negative chars in
    (chars, n, e, (value-digits false 10 _ (omega arith) (omega arith) (ground arith)).0)
