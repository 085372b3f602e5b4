-- ===== src/Vfs/Canonical.antt =====
-- kernel/vfs.c: what `canonicalize_path` returns.
use mathlib.Core.List.{append_assoc, append-nil}
use beryllium.Base.{
  ℕ, zero, suc, ◌≤◌, ◌<◌, ◌≡◌, refl, sym, ap, ◌∙◌, inl, inr, Option, none, some, List, [], ◌∷◌,
  ◌++◌, arith, if◌then◌else◌, Bool-cases, length,
}
use beryllium.Strings.{strtok_r}
use beryllium.Strings.Tokens.{pieces, IsCut, ended, token, strtok_r-IsCut}
use beryllium.Vfs.{
  separator_string, push, walk, each_token, is_relative, start, output, canonicalize_path,
}

-- The body of a loop, once for each word.
unfoldable pub fold :
    (body : List ℕ → List (List ℕ) → List (List ℕ)) → List (List ℕ) → List (List ℕ) → List (List ℕ)
fold body [] out = out
fold body (w ∷ ws) out = fold body ws (body w out)

-- A round of the loop, whose other rounds are as they should be.
token_round :
    (fuel : ℕ) (body : List ℕ → List (List ℕ) → List (List ℕ)) (str : List ℕ) (out : List (List ℕ))
    → ((save : List ℕ) (out : List (List ℕ))
        → length save < fuel
        → each_token fuel body save out ≡ some (fold body (pieces separator_string save) out))
    → length str ≤ fuel
    → (r : Option (List ℕ) × List ℕ) → IsCut separator_string str r
    → (let (t, save) = r in
        elim t [ none ↦ some out | some pch ↦ each_token fuel body save (body pch out) ])
      ≡ some (fold body (pieces separator_string str) out)
unfolding fold
token_round fuel body str out others h r (ended e) = rw e refl
token_round fuel body str out others h r (token word left e shorter) =
    rw e (others left (body word out) (omega (arith, h, shorter)))

each_token-fold :
    (fuel : ℕ) (body : List ℕ → List (List ℕ) → List (List ℕ)) (str : List ℕ) (out : List (List ℕ))
    → length str < fuel
    → each_token fuel body str out ≡ some (fold body (pieces separator_string str) out)
unfolding each_token
each_token-fold zero body str out h = absurd (omega (arith, h))
each_token-fold (suc fuel) body str out h =
    token_round fuel body str out (each_token-fold fuel body) (omega (arith, h))
      (strtok_r str separator_string) (strtok_r-IsCut separator_string str)

fold-push : (ws out : List (List ℕ)) → fold push ws out ≡ out ++ ws
unfolding fold push
fold-push [] out = sym (append-nil out)
fold-push (w ∷ ws) out = fold-push ws (push w out) ∙ append_assoc out (w ∷ []) ws

-- The words that a path names from a working directory, `..` and `.` resolved.
unfoldable pub resolve : (cwd input : List ℕ) → List (List ℕ)
resolve cwd input =
    fold walk (pieces separator_string input)
      (if is_relative input then pieces separator_string cwd else [])

start-pieces :
    (cwd input : List ℕ)
    → start cwd input ≡ some (if is_relative input then pieces separator_string cwd else [])
unfolding start
start-pieces cwd input = elim (Bool-cases (is_relative input)) [
  | inl e ↦
      rw e (each_token-fold (suc (length cwd)) push cwd [] (omega arith) ∙ ap some (fold-push _ []))
  | inr e ↦ rw e refl
]

-- `canonicalize_path` returns for every working directory and every input: the loops over tokens are the body of the
-- loop once for each word, and what comes out is put together as in the code.
pub canonicalize_path-resolve :
    (cwd input : List ℕ) → canonicalize_path cwd input ≡ some (output (resolve cwd input))
unfolding canonicalize_path resolve
canonicalize_path-resolve cwd input =
    rw
      (
        start-pieces cwd input,
        canonicalize_path,
        each_token-fold (suc (length input)) walk input
            (if is_relative input then pieces separator_string cwd else []) (omega arith),
      )
      refl
