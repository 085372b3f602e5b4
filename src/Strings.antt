-- ===== src/Strings.antt =====
-- kernel/lib/string.c: comparing, scanning and cutting strings. A string is the list of its characters
-- without the NUL, and a pointer into it is an offset or what is left from there on.
pub mod Compare
pub mod Tokens
mod Tests
use beryllium.Base.{
  ℕ, zero, suc, ◌+◌, ◌-◌, ◌%◌, ◌^◌, Bool, true, false, Option, none, some, List, [], ◌∷◌, ltb, ◌==◌,
  if◌then◌else◌, length, take, drop,
}
use mathlib.Core.Option.{map}

-- A `char` as an `int`, in two's complement of 32 bits.
unfoldable pub int_of_char : ℕ → ℕ
int_of_char c = if ltb c 128 then c else c + (2 ^ 32 - 256)

-- `*s1 - *s2`
unfoldable pub difference : (c1 c2 : ℕ) → ℕ
difference c1 c2 = (int_of_char c1 + (2 ^ 32 - int_of_char c2)) % 2 ^ 32

unfoldable pub strcmp : (s1 s2 : List ℕ) → ℕ
strcmp [] [] = 0
strcmp [] (c2 ∷ s2) = difference 0 c2
strcmp (c1 ∷ s1) [] = difference c1 0
strcmp (c1 ∷ s1) (c2 ∷ s2) = let rest = strcmp s1 s2 in if c1 == c2 then rest else difference c1 c2

-- The loop over `accept` in `strspn` and `strpbrk`: whether it stops before the NUL.
unfoldable pub accepts : (accept : List ℕ) → ℕ → Bool
accepts [] c = false
accepts (a ∷ accept) c = if c == a then true else accepts accept c

unfoldable pub strspn : (str accept : List ℕ) → ℕ
strspn [] accept = 0
strspn (c ∷ str) accept = if accepts accept c then suc (strspn str accept) else 0

-- Where in `str` the first character of `accept` stands.
unfoldable pub strpbrk : (str accept : List ℕ) → Option ℕ
strpbrk [] accept = none
strpbrk (c ∷ str) accept = if accepts accept c then some 0 else map suc (strpbrk str accept)

-- A token, if there is one, and what `saveptr` points to. The NUL that replaces the delimiter ends the
-- token, and `saveptr` is behind it.
unfoldable pub strtok_r : (str delim : List ℕ) → Option (List ℕ) × List ℕ
strtok_r str delim = elim (drop (strspn str delim) str) [
  | [] ↦ (none, [])
  | c ∷ cs ↦ elim (strpbrk (c ∷ cs) delim) [
    | none ↦ (some (c ∷ cs), [])
    | some k ↦ (some (take k (c ∷ cs)), drop (suc k) (c ∷ cs))
  ]
]
