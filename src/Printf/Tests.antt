-- ===== src/Printf/Tests.antt =====
-- kernel/printf.c: runs of `do_printf`, and the properties at concrete inputs.
use beryllium.Base.{ℕ, ◌%◌, ◌^◌, ◌≤◌, ◌≡◌, refl, true, false, some, List, [], ◌∷◌, arith, length}
use beryllium.Printf.Output.{
  no_flags, Arg, word, text, State, start, emit, emit_all, pad_left, pad_right,
}
use beryllium.Printf.Convert.{
  digit, digits_from, digits, emit_padded, emit_field, number, string, reset, reset_some, convert,
}
use beryllium.Printf.{modifier, width, flag, plain, scan, run, do_printf}
use beryllium.Printf.Count.{do_printf_count}
use beryllium.Printf.Digits.{value, value-digits}
use beryllium.Printf.Formats.{do_printf_decimal}

-- The format `<%05d|%-4s>`.
abbrev fields_format : List ℕ
fields_format =
    b'<'
    ∷ (b'%' ∷ (b'0' ∷ (b'5' ∷ (b'd' ∷ (b'|' ∷ (b'%' ∷ (b'-' ∷ (b'4' ∷ (b's' ∷ (b'>' ∷ []))))))))))

-- -42 and `ok`.
abbrev fields_args : List Arg
fields_args = word 4294967254 ∷ (text (b'o' ∷ (b'k' ∷ [])) ∷ [])

-- `<-0042|ok  >`
abbrev fields_out : List ℕ
fields_out =
    b'<'
    ∷ (b'-'
        ∷ (b'0'
            ∷ (b'0' ∷ (b'4' ∷ (b'2' ∷ (b'|' ∷ (b'o' ∷ (b'k' ∷ (b' ' ∷ (b' ' ∷ (b'>' ∷ [])))))))))))

do_printf_fields : do_printf fields_format fields_args ≡ some (fields_out, 12)
unfolding do_printf run scan plain flag width modifier convert number string reset reset_some start
    emit emit_all pad_left pad_right emit_field emit_padded digits digits_from digit
do_printf_fields = refl

do_printf_count_example : 12 ≡ length fields_out % 2 ^ 32
do_printf_count_example = do_printf_count fields_format fields_args fields_out 12 do_printf_fields

value-digits_example :
    (value 16 0 (digits true 16 48879) ≡ 48879) × (length (digits true 16 48879) ≤ 11)
value-digits_example = value-digits true 16 48879 (omega arith) (omega arith) (omega arith)

-- A `%-4s` before the argument is put out.
abbrev left_of_four : State
left_of_four = record {
  state = 2;
  flags = record no_flags { lj = true };
  count = 0;
  given_wd = 4;
  out = [];
  args = [];
  inside = false;
}

do_printf_decimal_example :
    (chars : List ℕ) × (n : ℕ) × (do_printf (37 ∷ (100 ∷ [])) (word 4294967254 ∷ [])
      ≡ some (45 ∷ chars, n))
    × (value 10 0 chars ≡ 42)
do_printf_decimal_example = do_printf_decimal 4294967254 (omega arith)
