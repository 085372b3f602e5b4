-- ===== src/Vfs/Resolved.antt =====
-- kernel/vfs.c: the result of `canonicalize_path` against a relation that is about words alone.
use mathlib.Core.Path.{subst}
use beryllium.Base.{
  ℕ, ◌+◌, ◌^◌, ◌<◌, ◌≡◌, ◌≢◌, refl, sym, ap, ◌∙◌, inl, inr, false, some, List, [], ◌∷◌, ◌++◌, arith,
  ◌==◌, if◌then◌else◌, Bool-cases, eq_of_==, length,
}
use beryllium.Strings.{strcmp}
use beryllium.Strings.Compare
use beryllium.Strings.Compare.{IsText, strcmp_zero, strcmp_refl}
use beryllium.Strings.Tokens.{pieces, All, one_more}
use beryllium.Vfs.{
  separator_string, up, dot, pop, push, walk, is_relative, join_size, join, output,
  canonicalize_path,
}
use beryllium.Vfs.Canonical.{fold, resolve, canonicalize_path-resolve}
use beryllium.Vfs.Names.{output-join}
use beryllium.Vfs.Sizes.{length-join-resolve}
use beryllium.Vfs.Mounts.Words.{IsWord, IsText-IsWord, ended}
use beryllium.Vfs.Open.Texts.{pieces_from-All}

-- The words that a path starts from: none for a path that is empty or starts with `/`, and those of the working
-- directory for any other.
pub data Starts (cwd : List ℕ) : List ℕ → List (List ℕ) → Type 0 where
  empty : Starts cwd [] []
  absolute : {rest : List ℕ} → Starts cwd (47 ∷ rest) []
  relative : {c : ℕ} {rest : List ℕ} → c ≢ 47 → Starts cwd (c ∷ rest) (pieces (47 ∷ []) cwd)

-- What the words of a path make of those before them: `..` drops the last one, where there is one, `.` does nothing, and
-- every other word is a name, which comes behind the others.
pub data Resolves : (words before result : List (List ℕ)) → Type 0 where
  done : {st : List (List ℕ)} → Resolves [] st st
  up_from_root : {ws r : List (List ℕ)} → Resolves ws [] r → Resolves ((46 ∷ (46 ∷ [])) ∷ ws) [] r
  up_from :
      (w : List ℕ) (st : List (List ℕ)) {ws r : List (List ℕ)}
      → Resolves ws st r
      → Resolves ((46 ∷ (46 ∷ [])) ∷ ws) (st ++ (w ∷ [])) r
  stay : {ws st r : List (List ℕ)} → Resolves ws st r → Resolves ((46 ∷ []) ∷ ws) st r
  name :
      {w : List ℕ} {ws st r : List (List ℕ)}
      → w ≢ 46 ∷ (46 ∷ [])
      → w ≢ 46 ∷ []
      → Resolves ws (st ++ (w ∷ [])) r
      → Resolves (w ∷ ws) st r

-- Words with a `/` in front of each.
unfoldable pub slashes : List (List ℕ) → List ℕ
slashes [] = []
slashes (w ∷ ws) = 47 ∷ (w ++ slashes ws)

-- The path of some words, `/` if there are none.
unfoldable pub path : List (List ℕ) → List ℕ
path [] = 47 ∷ []
path (w ∷ ws) = slashes (w ∷ ws)

slashes-join : (ws : List (List ℕ)) → join ws ≡ slashes ws
unfolding join slashes
slashes-join [] = refl
slashes-join (w ∷ ws) = ap (λ s. 47 ∷ (w ++ s)) (slashes-join ws)

output-path : (ws : List (List ℕ)) → length (join ws) < 2 ^ 32 → output ws ≡ path ws
unfolding output join_size path
output-path [] h = refl
output-path (w ∷ ws) h = output-join w ws h ∙ slashes-join (w ∷ ws)

ne_of_== : (a b : ℕ) → (a == b) ≡ false → a ≢ b
ne_of_== a b h = ground arith

start-Starts :
    (cwd input : List ℕ)
    → Starts cwd input (if is_relative input then pieces separator_string cwd else [])
unfolding is_relative
start-Starts cwd [] = empty
start-Starts cwd (c ∷ input) = elim (Bool-cases (c == 47)) [
  | inl e ↦ rw (e, eq_of_== c 47 e) absolute
  | inr e ↦ rw e (relative (ne_of_== c 47 e))
]

-- What `pop` drops of a list that is not empty.
pop-last : (x : List ℕ) (xs : List (List ℕ)) → (w : List ℕ) × (x ∷ xs ≡ pop (x ∷ xs) ++ (w ∷ []))
unfolding pop
pop-last x [] = (x, refl)
pop-last x (y ∷ ys) = let (w, e) = pop-last y ys in (w, ap (λ zs. x ∷ zs) e)

up_step : (ws st r : List (List ℕ)) → Resolves ws (pop st) r → Resolves ((46 ∷ (46 ∷ [])) ∷ ws) st r
unfolding pop
up_step ws [] r h = up_from_root h
up_step ws (x ∷ xs) r h =
    let (w, e) = pop-last x xs in
    subst (λ st. Resolves ((46 ∷ (46 ∷ [])) ∷ ws) st r) (sym e) (up_from w (pop (x ∷ xs)) h)

ne_of_strcmp : (s u : List ℕ) → (strcmp s u == 0) ≡ false → s ≢ u
ne_of_strcmp s u e same = cc (rw (ap (λ w. strcmp w u) same ∙ strcmp_refl u) at e)

up-IsText : IsText up
up-IsText =
    Compare.one_more (omega arith) (omega arith)
      (Compare.one_more (omega arith) (omega arith) Compare.none_left)

dot-IsText : IsText dot
dot-IsText = Compare.one_more (omega arith) (omega arith) Compare.none_left

fold-Resolves : (ws st : List (List ℕ)) → All IsWord ws → Resolves ws st (fold walk ws st)
unfolding fold walk push
fold-Resolves [] st all = done
fold-Resolves (w ∷ ws) st (one_more word all) = elim (Bool-cases (strcmp w up == 0)) [
  | inl e ↦
      let same =
        (strcmp_zero w up (IsText-IsWord w word) up-IsText).0 (eq_of_== (strcmp w up) 0 e) in
      rw (e, same) (up_step ws st (fold walk ws (pop st)) (fold-Resolves ws (pop st) all))
  | inr other ↦ elim (Bool-cases (strcmp w dot == 0)) [
    | inl e ↦
        let same =
          (strcmp_zero w dot (IsText-IsWord w word) dot-IsText).0 (eq_of_== (strcmp w dot) 0 e) in
        rw (other, e, same) (stay (fold-Resolves ws st all))
    | inr e ↦
        rw (other, e)
          (name (ne_of_strcmp w up other) (ne_of_strcmp w dot e)
            (fold-Resolves ws (st ++ (w ∷ [])) all))
  ]
]

-- `canonicalize_path` of an input of bytes returns the path of the words that those of the input, from first to last,
-- make of the words that it starts from: `..` drops the last word, `.` does nothing, and every other word is
-- added. The two strings are together shorter than the address space.
pub canonicalize_path-Resolves :
    (cwd input : List ℕ)
    → IsText input
    → length cwd + length input + 2 < 2 ^ 32
    → (st : List (List ℕ)) × (r : List (List ℕ)) × Starts cwd input st
      × Resolves (pieces (47 ∷ []) input) st r
      × (canonicalize_path cwd input ≡ some (path r))
unfolding resolve pieces
canonicalize_path-Resolves cwd input text short =
    let st = if is_relative input then pieces separator_string cwd else [] in
    (
      st,
      resolve cwd input,
      start-Starts cwd input,
      fold-Resolves (pieces separator_string input) st (pieces_from-All [] input ended text),
      canonicalize_path-resolve cwd input
          ∙ ap some (
              output-path (resolve cwd input)
                (omega (arith, length-join-resolve cwd input, short))),
    )
