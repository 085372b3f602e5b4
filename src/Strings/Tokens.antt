-- ===== src/Strings/Tokens.antt =====
-- kernel/lib/string.c: the tokens of a string, one call of `strtok_r` after the other.
use mathlib.Core.List.{append_assoc, append-nil}
use mathlib.Core.Option.{map}
use beryllium.Base.{
  ℕ, suc, ◌≤◌, ◌<◌, ◌≡◌, refl, sym, ap, ◌∙◌, ◌⊎◌, inl, inr, true, false, Option, none, some, List,
  [], ◌∷◌, ◌++◌, arith, if◌then◌else◌, Bool-cases, Option-cases, length, length-drop, take, drop,
}
use beryllium.Strings.{accepts, strspn, strpbrk, strtok_r}

-- A word that has ended, unless it is empty.
unfoldable pub flush : List ℕ → List (List ℕ)
flush [] = []
flush (c ∷ cs) = (c ∷ cs) ∷ []

-- The longest pieces without a delimiter, with the piece read so far.
unfoldable pub pieces_from : (delim word : List ℕ) → List ℕ → List (List ℕ)
pieces_from delim word [] = flush word
pieces_from delim word (c ∷ cs) =
    if accepts delim c
    then flush word ++ pieces_from delim [] cs
    else pieces_from delim (word ++ (c ∷ [])) cs

-- The longest pieces of a string without a delimiter.
unfoldable pub pieces : (delim : List ℕ) → List ℕ → List (List ℕ)
pieces delim str = pieces_from delim [] str

-- What `strspn` leaves is empty or starts with another character, and has the same pieces.
record IsSkipped (delim str left : List ℕ) : Type 0 where
  same : pieces delim left ≡ pieces delim str
  shorter : length left ≤ length str
  start : (left ≡ []) ⊎ ((c : ℕ) × (cs : List ℕ) × (left ≡ c ∷ cs) × (accepts delim c ≡ false))

drop-IsSkipped : (delim str : List ℕ) → IsSkipped delim str (drop (strspn str delim) str)
unfolding strspn pieces pieces_from flush
drop-IsSkipped delim [] = record { same = refl; shorter = omega arith; start = inl refl }
drop-IsSkipped delim (c ∷ str) = elim (Bool-cases (accepts delim c)) [
  | inl e ↦
      let left = drop-IsSkipped delim str in
      rw e (record {
        same = rw e left.same;
        shorter = omega (arith, left.shorter);
        start = left.start;
      })
  | inr e ↦ rw e (record { same = refl; shorter = omega arith; start = inr (c, str, refl, e) })
]

map-none : (o : Option ℕ) → map suc o ≡ none → o ≡ none
map-none none h = refl
map-none (some k) h = cc

map-some : (o : Option ℕ) (k : ℕ) → map suc o ≡ some k → (j : ℕ) × (o ≡ some j) × (k ≡ suc j)
map-some none k h = cc
map-some (some j) k h = (j, refl, cc)

pub pieces-whole :
    (delim word str : List ℕ)
    → strpbrk str delim ≡ none
    → pieces_from delim word str ≡ flush (word ++ str)
unfolding strpbrk pieces_from
pieces-whole delim word [] h = ap flush (sym (append-nil word))
pieces-whole delim word (c ∷ str) h = elim (Bool-cases (accepts delim c)) [
  | inl e ↦ cc (rw e at h)
  | inr e ↦ rw e (
      pieces-whole delim (word ++ (c ∷ [])) str (map-none _ (rw e at h))
      ∙ ap flush (append_assoc word (c ∷ []) str))
]

pieces-cut :
    (delim word str : List ℕ) (k : ℕ)
    → strpbrk str delim ≡ some k
    → pieces_from delim word str
      ≡ flush (word ++ take k str) ++ pieces_from delim [] (drop (suc k) str)
unfolding strpbrk pieces_from
pieces-cut delim word [] k h = cc
pieces-cut delim word (c ∷ str) k h = elim (Bool-cases (accepts delim c)) [
  | inl e ↦
      let here : 0 ≡ k = cc (rw e at h) in
      rw (e, sym here) (ap (λ w. flush w ++ pieces_from delim [] str) (sym (append-nil word)))
  | inr e ↦
      let (j, later, next) = map-some (strpbrk str delim) k (rw e at h) in
      rw (e, next)
        (pieces-cut delim (word ++ (c ∷ [])) str j later
          ∙ ap (λ w. flush w ++ pieces_from delim [] (drop (suc j) str))
              (append_assoc word (c ∷ []) (take j str)))
]

-- A piece that a delimiter ends.
pub pieces-append :
    (delim word str rest : List ℕ) (c : ℕ)
    → accepts delim c ≡ true
    → strpbrk str delim ≡ none
    → pieces_from delim word (str ++ (c ∷ rest)) ≡ flush (word ++ str) ++ pieces_from delim [] rest
unfolding strpbrk pieces_from
pieces-append delim word [] rest c end h =
    rw end (ap (λ w. flush w ++ pieces_from delim [] rest) (sym (append-nil word)))
pieces-append delim word (b ∷ str) rest c end h = elim (Bool-cases (accepts delim b)) [
  | inl e ↦ cc (rw e at h)
  | inr e ↦ rw e (
      pieces-append delim (word ++ (b ∷ [])) str rest c end (map-none _ (rw e at h))
      ∙ ap (λ w. flush w ++ pieces_from delim [] rest) (append_assoc word (b ∷ []) str))
]

-- A string with a character and without a delimiter.
pub record IsPiece (delim word : List ℕ) : Type 0 where
  pub whole : flush word ≡ word ∷ []
  pub clear : strpbrk word delim ≡ none

pub data All (P : List ℕ → Type 0) : List (List ℕ) → Type 0 where
  none_left : All P []
  one_more : {w : List ℕ} {ws : List (List ℕ)} → P w → All P ws → All P (w ∷ ws)

clear-append :
    (delim word : List ℕ) (c : ℕ)
    → strpbrk word delim ≡ none
    → accepts delim c ≡ false
    → strpbrk (word ++ (c ∷ [])) delim ≡ none
unfolding strpbrk
clear-append delim [] c h e = rw e refl
clear-append delim (b ∷ word) c h e = elim (Bool-cases (accepts delim b)) [
  | inl f ↦ cc (rw f at h)
  | inr f ↦ rw f (ap (map suc) (clear-append delim word c (map-none _ (rw f at h)) e))
]

All-flush :
    (delim word : List ℕ) (ws : List (List ℕ))
    → strpbrk word delim ≡ none
    → All (IsPiece delim) ws
    → All (IsPiece delim) (flush word ++ ws)
unfolding flush
All-flush delim [] ws h all = all
All-flush delim (c ∷ cs) ws h all = one_more (record { whole = refl; clear = h }) all

pieces_from-All :
    (delim word str : List ℕ)
    → strpbrk word delim ≡ none
    → All (IsPiece delim) (pieces_from delim word str)
unfolding pieces_from strpbrk
pieces_from-All delim word [] h =
    rw (append-nil (flush word)) at (All-flush delim word [] h none_left)
pieces_from-All delim word (c ∷ str) h = elim (Bool-cases (accepts delim c)) [
  | inl e ↦ rw e (All-flush delim word _ h (pieces_from-All delim [] str refl))
  | inr e ↦ rw e (pieces_from-All delim (word ++ (c ∷ [])) str (clear-append delim word c h e))
]

pub pieces-All : (delim str : List ℕ) → All (IsPiece delim) (pieces delim str)
unfolding pieces strpbrk
pieces-All delim str = pieces_from-All delim [] str refl

-- What a call of `strtok_r` may give: the string has no piece, or the token is its first one, and what
-- is left is shorter and has the other pieces.
pub data IsCut (delim str : List ℕ) : Option (List ℕ) × List ℕ → Type 0 where
  ended : pieces delim str ≡ [] → IsCut delim str (none, [])
  token :
      (word left : List ℕ)
      → pieces delim str ≡ word ∷ pieces delim left
      → length left < length str
      → IsCut delim str (some word, left)

-- One call of `strtok_r` gives the first of the longest pieces of its string without a delimiter and
-- leaves a shorter string with the others, or gives nothing if there is no piece.
pub strtok_r-IsCut : (delim str : List ℕ) → IsCut delim str (strtok_r str delim)
unfolding strtok_r strpbrk pieces pieces_from flush
strtok_r-IsCut delim str =
    let skipped = drop-IsSkipped delim str in
    elim skipped.start [
      | inl all ↦ rw (all, strtok_r) (ended (sym skipped.same ∙ ap (pieces delim) all))
      | inr (c, cs, e, other) ↦
          let first : pieces delim (c ∷ cs) ≡ pieces delim str = rw e at skipped.same in
          let shorter : suc (length cs) ≤ length str = rw e at skipped.shorter in
          elim (Option-cases (strpbrk cs delim)) [
            | inl uncut ↦
                rw (e, strtok_r, other, strpbrk, uncut)
                  (token (c ∷ cs) [] (sym first ∙ rw other (pieces-whole delim (c ∷ []) cs uncut))
                    (omega (arith, shorter)))
            | inr (k, found) ↦
                rw (e, strtok_r, other, strpbrk, found)
                  (token (c ∷ take k cs) (drop (suc k) cs)
                    (sym first ∙ rw other (pieces-cut delim (c ∷ []) cs k found))
                    (omega (arith, shorter, length-drop (suc k) cs)))
          ]
    ]
