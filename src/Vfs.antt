-- ===== src/Vfs.antt =====
-- kernel/vfs.c: `canonicalize_path`. The children have the rest of the file.
pub mod Canonical
pub mod Names
mod Resolved
pub mod Nodes
pub mod Mounts
pub mod Open
mod Sizes
mod Tests
use beryllium.Base.{
  ℕ, zero, suc, ◌+◌, ◌%◌, ◌^◌, Bool, true, false, not, ◌&&◌, Option, none, some, List, [], ◌∷◌,
  ◌++◌, ◌==◌, if◌then◌else◌, length,
}
use beryllium.Strings.{strcmp, strtok_r}

-- PATH_SEPARATOR, also the only character of PATH_SEPARATOR_STRING.
abbrev pub separator : ℕ
separator = 47

abbrev pub separator_string : List ℕ
separator_string = 47 ∷ []

-- PATH_UP
abbrev pub up : List ℕ
up = 46 ∷ (46 ∷ [])

-- PATH_DOT
abbrev pub dot : List ℕ
dot = 46 ∷ []

-- `list_pop(out)`, which leaves an empty list as it is.
unfoldable pub pop : List (List ℕ) → List (List ℕ)
pop [] = []
pop (s ∷ []) = []
pop (s ∷ (t ∷ out)) = s ∷ pop (t ∷ out)

-- `list_insert(out, s)`
unfoldable pub push : List ℕ → List (List ℕ) → List (List ℕ)
push s out = out ++ (s ∷ [])

-- The body of the loop over `input`.
unfoldable pub walk : List ℕ → List (List ℕ) → List (List ℕ)
walk pch out =
    if strcmp pch up == 0 then pop out else if strcmp pch dot == 0 then out else push pch out

-- `while (pch != NULL)` with its two calls of `strtok_r`. Each round shortens the string, so that its
-- length and one is enough fuel; `none` is a loop that runs on.
unfoldable pub each_token :
    (fuel : ℕ)
    → (body : List ℕ → List (List ℕ) → List (List ℕ)) → (str : List ℕ) → List (List ℕ)
    → Option (List (List ℕ))
each_token zero body str out = none
each_token (suc fuel) body str out =
    let (token, save) = strtok_r str separator_string in
    elim token [ none ↦ some out | some pch ↦ each_token fuel body save (body pch out) ]

-- Whether `strlen(input) && input[0] != PATH_SEPARATOR`.
unfoldable pub is_relative : List ℕ → Bool
is_relative [] = false
is_relative (c ∷ input) = not (c == separator)

-- The stack that the loop over `input` starts with.
unfoldable pub start : (cwd input : List ℕ) → Option (List (List ℕ))
start cwd input = if is_relative input then each_token (suc (length cwd)) push cwd [] else some []

-- `size`
unfoldable pub join_size : List (List ℕ) → ℕ
join_size [] = 0
join_size (s ∷ out) = (length s + 1 + join_size out) % 2 ^ 32

unfoldable pub join : List (List ℕ) → List ℕ
join [] = []
join (s ∷ out) = separator ∷ (s ++ join out)

unfoldable pub output : List (List ℕ) → List ℕ
output out = if join_size out == 0 then separator ∷ [] else join out

unfoldable pub canonicalize_path : (cwd input : List ℕ) → Option (List ℕ)
canonicalize_path cwd input = elim (start cwd input) [
  | none ↦ none
  | some out ↦ elim (each_token (suc (length input)) walk input out) [
    | none ↦ none
    | some stack ↦ some (output stack)
  ]
]
