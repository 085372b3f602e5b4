-- ===== src/Vfs/Mounts/Words.antt =====
-- kernel/vfs.c: a path of words as a chopped buffer.
use beryllium.Base.{
  ℕ, suc, ◌+◌, ◌≤◌, ◌<◌, ◌≡◌, ◌≢◌, refl, ap, ◌∙◌, List, [], ◌∷◌, ◌++◌, arith, ne→==, length,
  length-append, drop,
}
use beryllium.Strings.Compare
use beryllium.Strings.Compare.{IsText}
use beryllium.Strings.Tokens.{All, one_more}
use beryllium.Vfs.{join}
use beryllium.Vfs.Mounts.{word, skip, skips, chop}

-- Bytes of which none is 0 or the separator.
pub data IsPart : List ℕ → Type 0 where
  ended : IsPart []
  byte : {c : ℕ} {cs : List ℕ} → 0 < c → c < 256 → c ≢ 47 → IsPart cs → IsPart (c ∷ cs)

-- A part of a path between two separators that is not empty.
pub data IsWord : List ℕ → Type 0 where
  byte : {c : ℕ} {cs : List ℕ} → 0 < c → c < 256 → c ≢ 47 → IsPart cs → IsWord (c ∷ cs)

pub IsPart-IsWord : (w : List ℕ) → IsWord w → IsPart w
IsPart-IsWord [] h = elim h [ ]
IsPart-IsWord (c ∷ cs) (byte lo hi ne rest) = byte lo hi ne rest

pub IsText-IsPart : (w : List ℕ) → IsPart w → IsText w
IsText-IsPart [] ended = Compare.none_left
IsText-IsPart (c ∷ cs) (byte lo hi ne rest) = Compare.one_more lo hi (IsText-IsPart cs rest)

pub IsText-IsWord : (w : List ℕ) → IsWord w → IsText w
IsText-IsWord w h = IsText-IsPart w (IsPart-IsWord w h)

-- Each word with the NUL behind it.
unfoldable pub buffer : List (List ℕ) → List ℕ
buffer [] = []
buffer (w ∷ ws) = w ++ (0 ∷ buffer ws)

word-part : (w rest : List ℕ) → IsPart w → word (w ++ (0 ∷ rest)) ≡ w
unfolding word
word-part [] rest ended = refl
word-part (c ∷ w) rest (byte lo hi ne part) =
    rw (ne→== c 0 (λ e. absurd (omega (arith, lo, e)))) (ap (λ v. c ∷ v) (word-part w rest part))

drop-append : (w rest : List ℕ) (c : ℕ) → drop (suc (length w)) (w ++ (c ∷ rest)) ≡ rest
drop-append [] rest c = refl
drop-append (b ∷ w) rest c = drop-append w rest c

pub word-buffer : (w : List ℕ) (ws : List (List ℕ)) → IsWord w → word (buffer (w ∷ ws)) ≡ w
unfolding buffer
word-buffer w ws h = word-part w (buffer ws) (IsPart-IsWord w h)

pub skip-buffer : (w : List ℕ) (ws : List (List ℕ)) → IsWord w → skip (buffer (w ∷ ws)) ≡ buffer ws
unfolding skip buffer
skip-buffer w ws h = rw (word-part w (buffer ws) (IsPart-IsWord w h)) (drop-append w (buffer ws) 0)

pub length-buffer :
    (w : List ℕ) (ws : List (List ℕ)) → IsWord w → length (buffer ws) + 2 ≤ length (buffer (w ∷ ws))
unfolding buffer
length-buffer [] ws h = elim h [ ]
length-buffer (c ∷ w) ws (byte lo hi ne part) = omega (arith, length-append w (0 ∷ buffer ws))

chop-append : (w rest : List ℕ) → IsPart w → chop (w ++ rest) ≡ w ++ chop rest
unfolding chop
chop-append [] rest ended = refl
chop-append (c ∷ w) rest (byte lo hi ne part) =
    rw (ne→== c 47 ne) (ap (λ v. c ∷ v) (chop-append w rest part))

pub chop-join : (ws : List (List ℕ)) → All IsWord ws → chop (join ws) ≡ 0 ∷ buffer ws
unfolding join buffer chop
chop-join [] all = refl
chop-join (w ∷ ws) (one_more h all) =
    ap (λ v. 0 ∷ v)
      (chop-append w (join ws) (IsPart-IsWord w h) ∙ ap (λ v. w ++ v) (chop-join ws all))

skips-buffer : (ws : List (List ℕ)) → All IsWord ws → skips (length ws) (buffer ws) ≡ []
unfolding skips buffer
skips-buffer [] all = refl
skips-buffer (w ∷ ws) (one_more h all) =
    ap (skips (length ws)) (skip-buffer w ws h) ∙ skips-buffer ws all

-- Behind the first separator and the words is the end of the buffer.
pub skips-end : (ws : List (List ℕ)) → All IsWord ws → skips (suc (length ws)) (0 ∷ buffer ws) ≡ []
unfolding skips skip word
skips-end ws all = skips-buffer ws all

pub length_words-buffer : (ws : List (List ℕ)) → All IsWord ws → length ws ≤ length (buffer ws)
length_words-buffer [] all = omega arith
length_words-buffer (w ∷ ws) (one_more hw all) =
    omega (arith, length-buffer w ws hw, length_words-buffer ws all)
