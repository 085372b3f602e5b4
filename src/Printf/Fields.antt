-- ===== src/Printf/Fields.antt =====
-- kernel/printf.c: what a conversion puts out for a field of a given width.
use Prim.Native.Nat.{max}
use native.Mathlib.Numerals.{unary_clauses}
use mathlib.Core.List.{append_assoc, append-nil}
use beryllium.Base.{
  ℕ, zero, suc, ◌+◌, ◌-◌, ◌≡◌, refl, sym, ap, ◌∙◌, inl, inr, Bool, true, false, not, ◌&&◌, List, [],
  ◌∷◌, ◌++◌, arith, ltb, if◌then◌else◌, Bool-cases, length, length-append, replicate,
  length-replicate,
}
use beryllium.Printf.Output.{Flags, State, emit, emit_all, pad_left, pad_right}
use beryllium.Printf.Convert.{emit_padded, emit_field}

-- The text with its sign, on the left, or on the right behind zeros, or behind spaces.
aligned : (ws lz lj : Bool) (given_wd : ℕ) → List ℕ → List ℕ
aligned ws lz lj given_wd chars =
    let sign : List ℕ = (if ws then 45 ∷ [] else []) in
    let gap = given_wd - (length chars + length sign) in
    if lj
    then sign ++ (chars ++ replicate gap 32)
    else if lz
    then sign ++ (replicate gap 48 ++ chars)
    else replicate gap 32 ++ (sign ++ chars)

-- The field as its flags ask for it.
unfoldable pub layout : Flags → (given_wd : ℕ) → List ℕ → List ℕ
unfolding aligned
layout f given_wd chars = aligned f.ws f.lz f.lj given_wd chars

pub out-emit_all : (cs : List ℕ) (p : State) → (emit_all cs p).out ≡ p.out ++ cs
unfolding emit_all emit
out-emit_all [] p = sym (append-nil p.out)
out-emit_all (c ∷ cs) p = out-emit_all cs (emit c p) ∙ append_assoc p.out (c ∷ []) cs

out-pad_left :
    (given actual pad : ℕ) (p : State)
    → (pad_left given actual pad p).out ≡ p.out ++ replicate (given - actual) pad
unfolding pad_left emit
out-pad_left zero actual pad p =
    sym (append-nil p.out)
    ∙ ap (λ k. p.out ++ replicate k pad) {x = 0} {y = 0 - actual} (omega arith)
out-pad_left (suc given) actual pad p = elim (Bool-cases (ltb actual (suc given))) [
  | inl more ↦ rw more (
      out-pad_left given actual pad (emit pad p)
      ∙ append_assoc p.out (pad ∷ []) (replicate (given - actual) pad)
      ∙ ap (λ k. p.out ++ replicate k pad) {x = suc (given - actual)} {y = suc given - actual}
          (ground arith))
  | inr stop ↦ rw stop (
      sym (append-nil p.out)
      ∙ ap (λ k. p.out ++ replicate k pad) {x = 0} {y = suc given - actual} (ground arith))
]

out-pad_right : (given : ℕ) (p : State) → (pad_right given p).out ≡ p.out ++ replicate given 32
unfolding pad_right emit
out-pad_right zero p = sym (append-nil p.out)
out-pad_right (suc given) p =
    out-pad_right given (emit 32 p) ∙ append_assoc p.out (32 ∷ []) (replicate given 32)

out-emit : (c : ℕ) (p : State) → (emit c p).out ≡ p.out ++ (c ∷ [])
unfolding emit
out-emit c p = refl

out_if-pad_left :
    (b : Bool) (given actual pad : ℕ) (p : State)
    → (if b then p else pad_left given actual pad p).out
      ≡ p.out ++ (if b then [] else replicate (given - actual) pad)
out_if-pad_left true given actual pad p = sym (append-nil p.out)
out_if-pad_left false given actual pad p = out-pad_left given actual pad p

out_if-emit :
    (b : Bool) (p : State) → (if b then emit 45 p else p).out ≡ p.out ++ (if b then 45 ∷ [] else [])
out_if-emit true p = out-emit 45 p
out_if-emit false p = sym (append-nil p.out)

-- How many spaces are left for the right side.
right_gap :
    (b : Bool) (given actual : ℕ)
    → let g = (if b then given else if ltb actual given then actual else given) in
      (if ltb g actual then 0 else g - actual) ≡ (if b then given - actual else 0)
right_gap b given actual = ground arith

emit_padded-out :
    (actual : ℕ) (chars : List ℕ) (p : State)
    → (emit_padded actual chars p).out
      ≡ p.out
        ++ ((if p.flags.lj
              then []
              else replicate (p.given_wd - actual) (if p.flags.lz then 48 else 32))
            ++ ((if p.flags.ws && not p.flags.lz then 45 ∷ [] else [])
                ++ (chars ++ replicate (if p.flags.lj then p.given_wd - actual else 0) 32)))
unfolding emit_padded
emit_padded-out actual chars p =
    let f = p.flags in
    let pad : ℕ = (if f.lz then 48 else 32) in
    let q = (if f.lj then p else pad_left p.given_wd actual pad p) in
    let r = (if f.ws && not f.lz then emit 45 q else q) in
    let left = out_if-pad_left f.lj p.given_wd actual pad p in
    let signed = out_if-emit (f.ws && not f.lz) q in
    out-pad_right _ (emit_all chars r)
    ∙ simp (right_gap f.lj p.given_wd actual, out-emit_all chars r, signed, left, append_assoc)

-- What is put out from EMIT on, as the flags come in.
arranged : (ws lz lj : Bool) (gap : ℕ) → List ℕ → List ℕ
arranged ws lz lj gap chars =
    (if ws && lz then 45 ∷ [] else [])
    ++ ((if lj then [] else replicate gap (if lz then 48 else 32))
        ++ ((if ws && not lz then 45 ∷ [] else [])
            ++ (chars ++ replicate (if lj then gap else 0) 32)))

field-out :
    (chars : List ℕ) (p : State)
    → (emit_field chars p).out
      ≡ p.out
        ++ arranged p.flags.ws p.flags.lz p.flags.lj
            (p.given_wd - (if p.flags.ws then length chars + 1 else length chars))
            chars
unfolding emit_field arranged emit
field-out chars p =
    let actual = (if p.flags.ws then length chars + 1 else length chars) in
    elim (Bool-cases (p.flags.ws && p.flags.lz)) [
      | inl e ↦ rw e (emit_padded-out actual chars (emit 45 p) ∙ append_assoc p.out (45 ∷ []) _)
      | inr e ↦ rw e (emit_padded-out actual chars p)
    ]

arranged-aligned :
    (ws lz lj : Bool) (given : ℕ) (chars : List ℕ)
    → arranged ws lz lj (given - (if ws then length chars + 1 else length chars)) chars
      ≡ aligned ws lz lj given chars
unfolding arranged aligned
arranged-aligned true true true given chars = refl
arranged-aligned true true false given chars = simp append-nil
arranged-aligned true false true given chars = refl
arranged-aligned true false false given chars = simp append-nil
arranged-aligned false true true given chars = simp unary_clauses
arranged-aligned false true false given chars = simp (append-nil, unary_clauses)
arranged-aligned false false true given chars = simp unary_clauses
arranged-aligned false false false given chars = simp (append-nil, unary_clauses)

length-aligned :
    (ws lz lj : Bool) (given : ℕ) (chars : List ℕ)
    → length (aligned ws lz lj given chars) ≡ max given (length chars + (if ws then 1 else 0))
unfolding aligned
length-aligned true true true given chars = grind (arith, length-append, length-replicate)
length-aligned true true false given chars = grind (arith, length-append, length-replicate)
length-aligned true false true given chars = grind (arith, length-append, length-replicate)
length-aligned true false false given chars = grind (arith, length-append, length-replicate)
length-aligned false true true given chars = grind (arith, length-append, length-replicate)
length-aligned false true false given chars = grind (arith, length-append, length-replicate)
length-aligned false false true given chars = grind (arith, length-append, length-replicate)
length-aligned false false false given chars = grind (arith, length-append, length-replicate)

-- EMIT of `do_printf` puts out the text as the flags and the field width ask for: the sign and the
-- padding on the side and of the kind that they name, and as many characters as the width or, if the
-- text with its sign is longer, as that.
pub emit_field-layout :
    (chars : List ℕ) (p : State)
    → let sign : ℕ = (if p.flags.ws then 1 else 0) in
      ((emit_field chars p).out ≡ p.out ++ layout p.flags p.given_wd chars)
      × (length (layout p.flags p.given_wd chars) ≡ max p.given_wd (length chars + sign))
unfolding emit_field layout
emit_field-layout chars p = (
  field-out chars p
      ∙ ap (λ l. p.out ++ l) (arranged-aligned p.flags.ws p.flags.lz p.flags.lj p.given_wd chars),
  length-aligned p.flags.ws p.flags.lz p.flags.lj p.given_wd chars,
)
