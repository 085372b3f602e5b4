-- ===== src/Vfs/Open/Texts.antt =====
-- kernel/vfs.c: a file name of bytes resolves to words.
use beryllium.Base.{ℕ, ◌<◌, ◌≡◌, ◌≢◌, inl, inr, false, List, [], ◌∷◌, ◌++◌, arith, ◌==◌, Bool-cases}
use beryllium.Strings.{accepts, strcmp}
use beryllium.Strings.Compare
use beryllium.Strings.Compare.{IsText}
use beryllium.Strings.Tokens.{flush, pieces_from, pieces, All, none_left, one_more}
use beryllium.Vfs.{separator_string, up, dot, walk, is_relative}
use beryllium.Vfs.Canonical.{fold, resolve}
use beryllium.Vfs.Names.{pop-All, push-All}
use beryllium.Vfs.Mounts.Words.{IsPart, ended, IsWord, byte}

IsPart-snoc : (w : List ℕ) (c : ℕ) → IsPart w → 0 < c → c < 256 → c ≢ 47 → IsPart (w ++ (c ∷ []))
IsPart-snoc [] c ended lo hi ne = byte lo hi ne ended
IsPart-snoc (b ∷ w) c (byte lo1 hi1 ne1 part) lo hi ne =
    byte lo1 hi1 ne1 (IsPart-snoc w c part lo hi ne)

flush-All :
    (w : List ℕ) (ws : List (List ℕ)) → IsPart w → All IsWord ws → All IsWord (flush w ++ ws)
unfolding flush
flush-All [] ws ended all = all
flush-All (c ∷ w) ws (byte lo hi ne part) all = one_more (byte lo hi ne part) all

ne_of_== : (a b : ℕ) → (a == b) ≡ false → a ≢ b
ne_of_== a b h = ground arith

flush-flush : (w : List ℕ) → IsPart w → All IsWord (flush w)
unfolding flush
flush-flush [] ended = none_left
flush-flush (c ∷ w) (byte lo hi ne part) = one_more (byte lo hi ne part) none_left

pub pieces_from-All :
    (w str : List ℕ) → IsPart w → IsText str → All IsWord (pieces_from separator_string w str)
unfolding pieces_from accepts
pieces_from-All w [] part text = flush-flush w part
pieces_from-All w (c ∷ str) part (Compare.one_more lo hi text) = elim (Bool-cases (c == 47)) [
  | inl e ↦ rw e (flush-All w _ part (pieces_from-All [] str ended text))
  | inr e ↦
      rw e (pieces_from-All (w ++ (c ∷ [])) str (IsPart-snoc w c part lo hi (ne_of_== c 47 e)) text)
]

walk-All : (s : List ℕ) (out : List (List ℕ)) → IsWord s → All IsWord out → All IsWord (walk s out)
unfolding walk
walk-All s out h all = elim (Bool-cases (strcmp s up == 0)) [
  | inl e ↦ rw e (pop-All out all)
  | inr other ↦ elim (Bool-cases (strcmp s dot == 0)) [
    | inl e ↦ rw (other, e) all
    | inr e ↦ rw (other, e) (push-All s out h all)
  ]
]

fold-All : (ws out : List (List ℕ)) → All IsWord ws → All IsWord out → All IsWord (fold walk ws out)
unfolding fold
fold-All [] out none_left all = all
fold-All (w ∷ ws) out (one_more h words) all = fold-All ws (walk w out) words (walk-All w out h all)

-- From the root, a file name of bytes names a list of words.
pub resolve-IsWord : (name : List ℕ) → IsText name → All IsWord (resolve (47 ∷ []) name)
unfolding resolve pieces pieces_from accepts flush
resolve-IsWord name text = elim (Bool-cases (is_relative name)) [
  | inl e ↦ rw e (fold-All _ _ (pieces_from-All [] name ended text) none_left)
  | inr e ↦ rw e (fold-All _ _ (pieces_from-All [] name ended text) none_left)
]
