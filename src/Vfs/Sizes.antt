-- ===== src/Vfs/Sizes.antt =====
-- kernel/vfs.c: how long the joined words of a path can get.
use beryllium.Base.{
  ℕ, ◌+◌, ◌≤◌, ◌≡◌, List, [], ◌∷◌, ◌++◌, arith, if◌then◌else◌, length, length-append,
}
use beryllium.Strings.Tokens.{flush, pieces_from, pieces}
use beryllium.Vfs.{separator_string, pop, push, walk, is_relative, join}
use beryllium.Vfs.Canonical.{fold, resolve}

length-join-append :
    (a b : List (List ℕ)) → length (join (a ++ b)) ≡ length (join a) + length (join b)
unfolding join
length-join-append [] b = omega arith
length-join-append (s ∷ a) b =
    omega (arith, length-append s (join (a ++ b)), length-append s (join a), length-join-append a b)

length-join-pop : (out : List (List ℕ)) → length (join (pop out)) ≤ length (join out)
unfolding join pop
length-join-pop [] = omega arith
length-join-pop (s ∷ []) = omega arith
length-join-pop (s ∷ (t ∷ out)) = omega (
  arith,
  length-append s (join (t ∷ out)),
  length-append s (join (pop (t ∷ out))),
  length-join-pop (t ∷ out),
)

length-join-walk :
    (s : List ℕ) (out : List (List ℕ))
    → length (join (walk s out)) ≤ length (join out) + length (join (s ∷ []))
unfolding walk push
length-join-walk s out = ground (arith, length-join-pop out, length-join-append out (s ∷ []))

length-join-fold :
    (ws out : List (List ℕ))
    → length (join (fold walk ws out)) ≤ length (join out) + length (join ws)
unfolding fold
length-join-fold [] out = omega arith
length-join-fold (w ∷ ws) out = omega (
  arith,
  length-join-fold ws (walk w out),
  length-join-walk w out,
  length-join-append (w ∷ []) ws,
)

length-join-flush : (word : List ℕ) → length (join (flush word)) ≤ length word + 1
unfolding flush join
length-join-flush [] = omega arith
length-join-flush (c ∷ cs) = omega (arith, length-append cs [])

length-join-pieces_from :
    (delim word str : List ℕ)
    → length (join (pieces_from delim word str)) ≤ length word + length str + 1
unfolding pieces_from
length-join-pieces_from delim word [] = omega (arith, length-join-flush word)
length-join-pieces_from delim word (c ∷ str) = ground (
  arith,
  length-join-flush word,
  length-join-append (flush word) (pieces_from delim [] str),
  length-join-pieces_from delim [] str,
  length-join-pieces_from delim (word ++ (c ∷ [])) str,
  length-append word (c ∷ []),
)

pub length-join-resolve :
    (cwd input : List ℕ) → length (join (resolve cwd input)) ≤ length cwd + length input + 2
unfolding resolve pieces join
length-join-resolve cwd input = ground (
  arith,
  length-join-pieces_from separator_string [] cwd,
  length-join-pieces_from separator_string [] input,
  length-join-fold (pieces separator_string input)
      (if is_relative input then pieces separator_string cwd else []),
)
