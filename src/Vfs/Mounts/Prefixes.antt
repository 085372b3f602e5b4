-- ===== src/Vfs/Mounts/Prefixes.antt =====
-- kernel/vfs.c: `get_mount_point` and the beginnings of a path.
use beryllium.Base.{
  ℕ, zero, suc, ◌≤◌, ◌<◌, ◌≡◌, refl, sym, ap, ◌∙◌, ◌⊎◌, inl, inr, Option, none, some, List, [], ◌∷◌,
  arith, Option-cases, length, take, drop,
}
use beryllium.Strings.Tokens.{All}
use beryllium.Trees.{Node, node, Nodes, value}
use beryllium.Vfs.Mounts.{Entry, Vfs, Found, child_named, get_mount_point}
use beryllium.Vfs.Mounts.Words.{IsWord, buffer, length_words-buffer, skips-end}
use beryllium.Vfs.Mounts.Mounted.{file_at, file_at-some, file_at-none}
use beryllium.Vfs.Mounts.Mounting.{IsVfs, mounted, mounted-IsVfs}
use beryllium.Vfs.Mounts.Longest.{
  with_file, deepest, found_from, deepest-nil, deepest-with_file, deepest-none, search_from-deepest,
}

order : (a b : ℕ) → (a < b) ⊎ ((a ≡ b) ⊎ (b < a))
order a b = ground arith

module _ {F : Type 0} where
  -- No beginning of the words that is longer than `k` has a file.
  abbrev HasNoneBehind : (k : ℕ) → List (List ℕ) → Node (Entry F) → Type 0
  HasNoneBehind k ws n = (i : ℕ) → k < i → i ≤ length ws → file_at (take i ws) n ≡ none

  -- What `deepest` is about: the file of the longest beginning of the words that has one.
  pub IsDeepest : List (List ℕ) → Node (Entry F) → Option (F × ℕ × List (List ℕ)) → Type 0
  IsDeepest ws n none = HasNoneBehind 0 ws n
  IsDeepest ws n (some (f, k, rest)) =
      (k < length ws)
      × (file_at (take (suc k) ws) n ≡ some f)
      × (rest ≡ drop (suc k) ws)
      × HasNoneBehind (suc k) ws n

  none_behind :
      (k : ℕ) (w : List ℕ) (ws : List (List ℕ)) (ent : Entry F) (cs : Nodes (Entry F))
      (c : Node (Entry F))
      → child_named w cs ≡ some c
      → HasNoneBehind k ws c
      → HasNoneBehind (suc k) (w ∷ ws) (node ent cs)
  none_behind k w ws ent cs c e deep zero h l = absurd (omega (arith, h))
  none_behind k w ws ent cs c e deep (suc i) h l =
      file_at-some w (take i ws) ent cs c e ∙ deep i (omega (arith, h)) (omega (arith, l))

  none_at :
      (w : List ℕ) (ws : List (List ℕ)) (ent : Entry F) (cs : Nodes (Entry F)) (c : Node (Entry F))
      → child_named w cs ≡ some c
      → (value c).file ≡ none
      → HasNoneBehind 0 ws c
      → HasNoneBehind 0 (w ∷ ws) (node ent cs)
  unfolding file_at
  none_at w ws ent cs c e g deep zero h l = absurd (omega (arith, h))
  none_at w ws ent cs c e g deep (suc zero) h l = file_at-some w [] ent cs c e ∙ g
  none_at w ws ent cs c e g deep (suc (suc i)) h l =
      none_behind 0 w ws ent cs c e deep (suc (suc i)) (omega arith) l

  with_file-IsDeepest :
      (w : List ℕ) (ws : List (List ℕ)) (ent : Entry F) (cs : Nodes (Entry F)) (c : Node (Entry F))
      (file : Option F) (o : Option (F × ℕ × List (List ℕ)))
      → child_named w cs ≡ some c
      → (value c).file ≡ file
      → IsDeepest ws c o
      → IsDeepest (w ∷ ws) (node ent cs) (with_file file ws o)
  unfolding IsDeepest with_file file_at
  with_file-IsDeepest w ws ent cs c file (some (f, k, rest)) e g (lt, at, left, deep) = (
    omega (arith, lt),
    file_at-some w (take (suc k) ws) ent cs c e ∙ at,
    left,
    none_behind (suc k) w ws ent cs c e deep,
  )
  with_file-IsDeepest w ws ent cs c none none e g deep = none_at w ws ent cs c e g deep
  with_file-IsDeepest w ws ent cs c (some f) none e g deep =
      (omega arith, file_at-some w [] ent cs c e ∙ g, refl, none_behind 0 w ws ent cs c e deep)

  none_below :
      (w : List ℕ) (ws : List (List ℕ)) (ent : Entry F) (cs : Nodes (Entry F))
      → child_named w cs ≡ none
      → HasNoneBehind 0 (w ∷ ws) (node ent cs)
  none_below w ws ent cs e zero h l = absurd (omega (arith, h))
  none_below w ws ent cs e (suc i) h l = file_at-none w (take i ws) ent cs e

  pub deepest-IsDeepest : (ws : List (List ℕ)) (n : Node (Entry F)) → IsDeepest ws n (deepest ws n)
  unfolding IsDeepest
  deepest-IsDeepest [] n = rw (deepest-nil n) (λ i h l. absurd (omega (arith, h, l)))
  deepest-IsDeepest (w ∷ ws) (node ent cs) = elim (Option-cases (child_named w cs)) [
    | inl e ↦ rw (deepest-none w ws ent cs e) (none_below w ws ent cs e)
    | inr (c, e) ↦ rw (deepest-with_file w ws ent cs c e) (
        with_file-IsDeepest w ws ent cs c (value c).file (deepest ws c) e refl
          (deepest-IsDeepest ws c))
  ]

  -- What `get_mount_point` is to find: `count` words lead to the file, no more words lead to one, and the
  -- others are left. No words at all lead to the file of the root.
  pub record IsLongest (v : Vfs F) (ws : List (List ℕ)) (found : Found F) : Type 0 where
    pub count : ℕ
    pub within : count ≤ length ws
    pub last : found.0 ≡ mounted (take count ws) v
    pub left : found.1 ≡ buffer (drop count ws)
    pub depth : found.2 ≡ count
    pub there : (count ≡ 0) ⊎ ((f : F) × (found.0 ≡ some f))
    pub longest : (i : ℕ) → count < i → i ≤ length ws → mounted (take i ws) v ≡ none

  found_from-IsLongest :
      (v : Vfs F) (h : IsVfs v) (ws : List (List ℕ)) (o : Option (F × ℕ × List (List ℕ)))
      → IsDeepest ws h.top o
      → IsLongest v ws (found_from 1 (v.vfs_root_node, buffer ws, 0) o)
  unfolding found_from IsDeepest
  found_from-IsLongest v h ws none deep = record {
    count = 0;
    within = omega arith;
    last = h.shortcut ∙ sym (mounted-IsVfs [] v h);
    left = refl;
    depth = refl;
    there = inl refl;
    longest = λ i b l. mounted-IsVfs (take i ws) v h ∙ deep i b l;
  }
  found_from-IsLongest v h ws (some (f, k, rest)) (lt, at, left, deep) = record {
    count = suc k;
    within = omega (arith, lt);
    last = sym (mounted-IsVfs (take (suc k) ws) v h ∙ at);
    left = ap buffer left;
    depth = omega arith;
    there = inr (f, refl);
    longest = λ i b l. mounted-IsVfs (take i ws) v h ∙ deep i b l;
  }

  -- In a well-formed state, `get_mount_point` returns for the chopped path of some words: the node that is
  -- mounted at the longest beginning of them at which one is, the root's if there is no other, how many
  -- words that beginning has, and a pointer behind it.
  pub get_mount_point-IsLongest :
      (v : Vfs F) (ws : List (List ℕ))
      → IsVfs v
      → All IsWord ws
      → (found : Found F) × (get_mount_point (0 ∷ buffer ws) (length ws) (buffer ws) v ≡ some found)
        × IsLongest v ws found
  unfolding get_mount_point
  get_mount_point-IsLongest v ws h all = (
    found_from 1 (v.vfs_root_node, buffer ws, 0) (deepest ws h.top),
    simp (h.has_tree, h.has_root, skips-end ws all)
        (search_from-deepest ws (suc (length (buffer ws))) 1 (v.vfs_root_node, buffer ws, 0) h.top
          all (omega (arith, length_words-buffer ws all))),
    found_from-IsLongest v h ws (deepest ws h.top) (deepest-IsDeepest ws h.top),
  )

  -- `count` words lead to a mounted node, and no more words lead to one.
  pub record IsMountPoint (v : Vfs F) (ws : List (List ℕ)) (count : ℕ) (file : F) : Type 0 where
    pub within : count ≤ length ws
    pub here : mounted (take count ws) v ≡ some file
    pub longest : (i : ℕ) → count < i → i ≤ length ws → mounted (take i ws) v ≡ none

  pub count-IsLongest :
      (v : Vfs F) (ws : List (List ℕ)) (count : ℕ) (file : F) (found : Found F)
      → IsMountPoint v ws count file
      → (g : IsLongest v ws found) → g.count ≡ count
  count-IsLongest v ws count file found h g = elim (order g.count count) [
    | inl e ↦ absurd (cc (g.longest count e h.within, h.here))
    | inr (inl e) ↦ e
    | inr (inr e) ↦ elim g.there [
      | inl z ↦ absurd (omega (arith, e, z))
      | inr (f, some_file) ↦ absurd (cc (h.longest g.count e g.within, g.last, some_file))
    ]
  ]
