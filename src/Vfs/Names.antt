-- ===== src/Vfs/Names.antt =====
-- kernel/vfs.c: paths without `.` and `..`, which `canonicalize_path` returns and leaves alone.
use mathlib.Core.List.{append_assoc, append-nil}
use beryllium.Base.{
  ℕ, ◌+◌, ◌%◌, ◌^◌, ◌<◌, ◌≡◌, refl, sym, ap, ◌∙◌, inl, inr, true, false, some, List, [], ◌∷◌, ◌++◌,
  arith, ◌==◌, Bool-cases, length, length-append,
}
use beryllium.Strings.{accepts, strcmp}
use beryllium.Strings.Tokens.{
  flush, pieces_from, pieces, pieces-append, pieces-whole, IsPiece, All, none_left, one_more,
  pieces-All,
}
use beryllium.Vfs.{
  separator, separator_string, up, dot, pop, push, walk, is_relative, join_size, join, output,
  canonicalize_path,
}
use beryllium.Vfs.Canonical.{fold, resolve, canonicalize_path-resolve}
use beryllium.Vfs.Sizes.{length-join-resolve}

-- A word that is neither `..` nor `.`.
pub record IsName (word : List ℕ) : Type 0 where
  pub piece : IsPiece separator_string word
  pub not_up : (strcmp word up == 0) ≡ false
  pub not_dot : (strcmp word dot == 0) ≡ false

pub pop-All : {P : List ℕ → Type 0} → (out : List (List ℕ)) → All P out → All P (pop out)
unfolding pop
pop-All [] all = none_left
pop-All (s ∷ []) all = none_left
pop-All (s ∷ (t ∷ out)) (one_more h all) = one_more h (pop-All (t ∷ out) all)

pub push-All :
    {P : List ℕ → Type 0}
    → (s : List ℕ) (out : List (List ℕ)) → P s
    → All P out
    → All P (push s out)
unfolding push
push-All s [] h none_left = one_more h none_left
push-All s (t ∷ out) h (one_more g all) = one_more g (push-All s out h all)

walk-All :
    (s : List ℕ) (out : List (List ℕ))
    → IsPiece separator_string s
    → All IsName out
    → All IsName (walk s out)
unfolding walk
walk-All s out piece all = elim (Bool-cases (strcmp s up == 0)) [
  | inl e ↦ rw e (pop-All out all)
  | inr not_up ↦ elim (Bool-cases (strcmp s dot == 0)) [
    | inl e ↦ rw (not_up, e) all
    | inr not_dot ↦
        rw (not_up, not_dot)
          (push-All s out (record { piece = piece; not_up = not_up; not_dot = not_dot }) all)
  ]
]

fold-All :
    (ws out : List (List ℕ))
    → All (IsPiece separator_string) ws
    → All IsName out
    → All IsName (fold walk ws out)
unfolding fold
fold-All [] out pieces all = all
fold-All (w ∷ ws) out (one_more piece pieces) all =
    fold-All ws (walk w out) pieces (walk-All w out piece all)

-- Names are pushed one after the other.
fold-names : (ws out : List (List ℕ)) → All IsName ws → fold walk ws out ≡ out ++ ws
unfolding fold walk push
fold-names [] out all = sym (append-nil out)
fold-names (w ∷ ws) out (one_more name all) =
    rw (name.not_up, name.not_dot) (fold-names ws (push w out) all ∙ append_assoc out (w ∷ []) ws)

-- A name, and the names behind it.
pieces-name :
    (s : List ℕ) (out : List (List ℕ))
    → IsName s
    → All IsName out
    → pieces_from separator_string [] (s ++ join out) ≡ s ∷ out
unfolding join accepts flush pieces_from
pieces-name s [] name all =
    rw (append-nil s) (pieces-whole separator_string [] s name.piece.clear ∙ name.piece.whole)
pieces-name s (t ∷ out) name (one_more next all) =
    pieces-append separator_string [] s (t ++ join out) separator refl name.piece.clear
    ∙ ap (λ ws. ws ++ pieces_from separator_string [] (t ++ join out)) name.piece.whole
    ∙ ap (λ ws. s ∷ ws) (pieces-name t out next all)

pieces-join : (out : List (List ℕ)) → All IsName out → pieces separator_string (join out) ≡ out
unfolding pieces pieces_from join accepts flush
pieces-join [] all = refl
pieces-join (s ∷ out) (one_more name all) = pieces-name s out name all

join_size-join : (out : List (List ℕ)) → join_size out ≡ length (join out) % 2 ^ 32
unfolding join_size join
join_size-join [] = refl
join_size-join (s ∷ out) = omega (arith, length-append s (join out), join_size-join out)

pub output-join :
    (s : List ℕ) (out : List (List ℕ))
    → length (join (s ∷ out)) < 2 ^ 32
    → output (s ∷ out) ≡ join (s ∷ out)
unfolding output join
output-join s out h = ground (arith, join_size-join (s ∷ out), h)

pieces-output :
    (out : List (List ℕ))
    → All IsName out
    → length (join out) < 2 ^ 32
    → pieces separator_string (output out) ≡ out
unfolding output join_size pieces pieces_from flush accepts
pieces-output [] all h = refl
pieces-output (s ∷ out) all h =
    ap (pieces separator_string) (output-join s out h) ∙ pieces-join (s ∷ out) all

-- A path that starts with the separator.
abbrev pub IsAbsolute : List ℕ → Type 0
IsAbsolute p = (rest : List ℕ) × (p ≡ separator ∷ rest)

output-IsAbsolute : (out : List (List ℕ)) → length (join out) < 2 ^ 32 → IsAbsolute (output out)
unfolding output join_size join
output-IsAbsolute [] h = ([], refl)
output-IsAbsolute (s ∷ out) h = (s ++ join out, output-join s out h)

resolve-All :
    (cwd input : List ℕ)
    → (is_relative input ≡ true → All IsName (pieces separator_string cwd))
    → All IsName (resolve cwd input)
unfolding resolve
resolve-All cwd input h = elim (Bool-cases (is_relative input)) [
  | inl e ↦ rw e (fold-All _ _ (pieces-All separator_string input) (h e))
  | inr e ↦ rw e (fold-All _ _ (pieces-All separator_string input) none_left)
]

-- A path of names resolves to the same names, wherever it is seen from.
resolve-output :
    (dir : List ℕ) (out : List (List ℕ))
    → All IsName out
    → length (join out) < 2 ^ 32
    → resolve dir (output out) ≡ out
unfolding resolve is_relative
resolve-output dir out all h =
    let (rest, absolute) = output-IsAbsolute out h in
    let names = pieces-output out all h in
    rw absolute (ap (λ ws. fold walk ws []) (rw absolute at names) ∙ fold-names out [] all)

-- From a working directory without `..` and `.`, or for an absolute input, `canonicalize_path` returns
-- an absolute path that has no `..`, no `.` and no empty word between its separators, and that it
-- returns again when it is given that path, whatever the working directory is then. The two strings
-- are together shorter than the address space.
pub canonicalize_path-IsName :
    (cwd input : List ℕ)
    → (is_relative input ≡ true → All IsName (pieces separator_string cwd))
    → length cwd + length input + 2 < 2 ^ 32
    → (p : List ℕ) × (canonicalize_path cwd input ≡ some p)
      × IsAbsolute p
      × (p ≡ output (pieces separator_string p))
      × All IsName (pieces separator_string p)
      × ((dir : List ℕ) → canonicalize_path dir p ≡ some p)
canonicalize_path-IsName cwd input h short =
    let out = resolve cwd input in
    let all = resolve-All cwd input h in
    let fits : length (join out) < 2 ^ 32 = omega (arith, length-join-resolve cwd input, short) in
    let names = pieces-output out all fits in
    (
      output out,
      canonicalize_path-resolve cwd input,
      output-IsAbsolute out fits,
      ap output (sym names),
      rw names all,
      λ dir.
          canonicalize_path-resolve dir (output out)
          ∙ ap (λ o. some (output o)) (resolve-output dir out all fits),
    )
