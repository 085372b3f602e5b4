-- ===== src/Printf/Output.antt =====
-- kernel/printf.c: what `do_printf` keeps while it scans a format, and how it puts out characters.
use beryllium.Base.{
  ℕ, zero, suc, ◌+◌, ◌%◌, ◌^◌, Bool, false, List, [], ◌∷◌, ◌++◌, ltb, if◌then◌else◌,
}

-- PR_LJ, PR_CA, PR_SG, PR_32, PR_16, PR_WS, PR_LZ and PR_FP.
pub record Flags : Type 0 where
  pub lj : Bool
  pub ca : Bool
  pub sg : Bool
  pub long : Bool
  pub short : Bool
  pub ws : Bool
  pub lz : Bool
  pub fp : Bool

abbrev pub no_flags : Flags
no_flags = record {
  lj = false;
  ca = false;
  sg = false;
  long = false;
  short = false;
  ws = false;
  lz = false;
  fp = false;
}

-- What a `va_arg` finds: a 32-bit word, or a text.
pub data Arg : Type 0 where
  word : ℕ → Arg
  text : List ℕ → Arg

-- The variables of `do_printf`. `out` is what `fn` was called with. `inside` says that `fmt` was
-- advanced in the `switch`, which goes on with the next character whatever that is.
pub record State : Type 0 where
  pub state : ℕ
  pub flags : Flags
  pub count : ℕ
  pub given_wd : ℕ
  pub out : List ℕ
  pub args : List Arg
  pub inside : Bool

unfoldable pub start : List Arg → State
start args = record {
  state = 0;
  flags = no_flags;
  count = 0;
  given_wd = 0;
  out = [];
  args = args;
  inside = false;
}

-- `fn(c, &ptr); count++;`
unfoldable pub emit : ℕ → State → State
emit c p = record p { out = p.out ++ (c ∷ []); count = (p.count + 1) % 2 ^ 32 }

-- `while(*where != '\0') { fn(*where++, &ptr); count++; }`
unfoldable pub emit_all : List ℕ → State → State
emit_all [] p = p
emit_all (c ∷ cs) p = emit_all cs (emit c p)

-- `while(given_wd > actual_wd) { fn(pad, &ptr); count++; given_wd--; }`
unfoldable pub pad_left : (given_wd actual_wd pad : ℕ) → State → State
pad_left zero actual_wd pad p = p
pad_left (suc given_wd) actual_wd pad p =
    let rest = pad_left given_wd actual_wd pad (emit pad p) in
    if ltb actual_wd (suc given_wd) then rest else p

-- `for(; given_wd; given_wd--) { fn(' ', &ptr); count++; }`
unfoldable pub pad_right : (given_wd : ℕ) → State → State
pad_right zero p = p
pad_right (suc given_wd) p = pad_right given_wd (emit 32 p)
