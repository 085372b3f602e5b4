-- ===== src/Vfs/Mounts/Longest.antt =====
-- kernel/vfs.c: what `get_mount_point` finds.
use beryllium.Base.{
  gt→leb, ℕ, zero, suc, ◌+◌, ◌<◌, ◌≡◌, refl, sym, ap, ◌∙◌, inl, inr, false, Option, none, some,
  List, [], ◌∷◌, arith, leb, Option-cases, length,
}
use beryllium.Strings.Tokens.{All, one_more}
use beryllium.Trees.{Node, node, Nodes, value, children}
use beryllium.Vfs.Mounts.{Entry, Found, word, skip, child_named, search_from}
use beryllium.Vfs.Mounts.Words.{IsWord, buffer, word-buffer, skip-buffer, length-buffer}

module _ {F : Type 0} where
  -- What is deepest with a child, from what is deepest below it and from its file.
  unfoldable pub with_file :
      Option F → List (List ℕ) → Option (F × ℕ × List (List ℕ)) → Option (F × ℕ × List (List ℕ))
  with_file file ws (some (f, k, rest)) = some (f, suc k, rest)
  with_file none ws none = none
  with_file (some f) ws none = some (f, 0, ws)

  -- The file of the last node with one on a way down, how many words lead to it besides the first, and
  -- the other words.
  unfoldable pub deepest : List (List ℕ) → Node (Entry F) → Option (F × ℕ × List (List ℕ))
  deepest [] n = none
  deepest (w ∷ ws) n = elim (child_named w (children n)) [
    | none ↦ none
    | some c ↦ with_file (value c).file ws (deepest ws c)
  ]

  -- What the search then has.
  unfoldable pub found_from : (depth : ℕ) → Found F → Option (F × ℕ × List (List ℕ)) → Found F
  found_from depth found none = found
  found_from depth found (some (f, k, rest)) = (some f, buffer rest, depth + k)

  -- `found` behind a round at a child with this file.
  abbrev at_child : (depth : ℕ) (left : List ℕ) → Option F → Found F → Found F
  at_child depth left none found = found
  at_child depth left (some f) found = (some f, left, depth)

  -- One round, at a child that is there.
  search_round :
      (fuel : ℕ) (at left w : List ℕ) (depth : ℕ) (found : Found F) (ent : Entry F)
      (cs : Nodes (Entry F)) (c : Node (Entry F)) (file : Option F)
      → leb (length at) 0 ≡ false
      → skip at ≡ left
      → word at ≡ w
      → child_named w cs ≡ some c
      → (value c).file ≡ file
      → search_from (suc fuel) [] at depth found (node ent cs)
        ≡ search_from fuel [] left (depth + 1) (at_child depth left file found) c
  unfolding search_from
  search_round fuel at left w depth found ent cs c none more next here e f =
      rw (search_from, more, here, e, f, next) refl
  search_round fuel at left w depth found ent cs c (some g) more next here e f =
      rw (search_from, more, here, e, f, next) refl

  search_stops :
      (fuel : ℕ) (at w : List ℕ) (depth : ℕ) (found : Found F) (ent : Entry F)
      (cs : Nodes (Entry F))
      → leb (length at) 0 ≡ false
      → word at ≡ w
      → child_named w cs ≡ none
      → search_from (suc fuel) [] at depth found (node ent cs) ≡ some found
  unfolding search_from
  search_stops fuel at w depth found ent cs more here e = rw (search_from, more, here, e) refl

  pub deepest-with_file :
      (w : List ℕ) (ws : List (List ℕ)) (ent : Entry F) (cs : Nodes (Entry F)) (c : Node (Entry F))
      → child_named w cs ≡ some c
      → deepest (w ∷ ws) (node ent cs) ≡ with_file (value c).file ws (deepest ws c)
  unfolding deepest
  deepest-with_file w ws ent cs c e = rw (deepest, e) refl

  pub deepest-none :
      (w : List ℕ) (ws : List (List ℕ)) (ent : Entry F) (cs : Nodes (Entry F))
      → child_named w cs ≡ none
      → deepest (w ∷ ws) (node ent cs) ≡ none
  unfolding deepest
  deepest-none w ws ent cs e = rw (deepest, e) refl

  found_from-with_file :
      (depth : ℕ) (found : Found F) (ws : List (List ℕ)) (file : Option F)
      (o : Option (F × ℕ × List (List ℕ)))
      → found_from (depth + 1) (at_child depth (buffer ws) file found) o
        ≡ found_from depth found (with_file file ws o)
  unfolding found_from with_file
  found_from-with_file depth found ws file (some (f, k, rest)) =
      ap (λ d. (some f, buffer rest, d)) (omega arith)
  found_from-with_file depth found ws none none = refl
  found_from-with_file depth found ws (some f) none = ap (λ d. (some f, buffer ws, d)) (omega arith)

  pub deepest-nil : (n : Node (Entry F)) → deepest [] n ≡ none
  unfolding deepest
  deepest-nil n = refl

  search_ended :
      (fuel depth : ℕ) (found : Found F) (ent : Entry F) (cs : Nodes (Entry F))
      → search_from (suc fuel) [] (buffer []) depth found (node ent cs)
        ≡ some (found_from depth found (deepest [] (node ent cs)))
  unfolding search_from buffer deepest found_from
  search_ended fuel depth found ent cs = refl

  pub search_from-deepest :
      (ws : List (List ℕ)) (fuel depth : ℕ) (found : Found F) (n : Node (Entry F))
      → All IsWord ws
      → length ws < fuel
      → search_from fuel [] (buffer ws) depth found n ≡ some (found_from depth found (deepest ws n))
  unfolding found_from
  search_from-deepest ws zero depth found n all h = absurd (omega (arith, h))
  search_from-deepest [] (suc fuel) depth found (node ent cs) all h =
      search_ended fuel depth found ent cs
  search_from-deepest (w ∷ ws) (suc fuel) depth found (node ent cs) (one_more hw all) h =
      let more = gt→leb (length (buffer (w ∷ ws))) 0 (omega (arith, length-buffer w ws hw)) in
      elim (Option-cases (child_named w cs)) [
        | inl e ↦
            search_stops fuel (buffer (w ∷ ws)) w depth found ent cs more (word-buffer w ws hw) e
            ∙ ap (λ o. some (found_from depth found o)) (sym (deepest-none w ws ent cs e))
        | inr (c, e) ↦
            search_round fuel (buffer (w ∷ ws)) (buffer ws) w depth found ent cs c (value c).file
              more (skip-buffer w ws hw) (word-buffer w ws hw) e refl
            ∙ search_from-deepest ws fuel (depth + 1) _ c all (omega (arith, h))
            ∙ ap some (found_from-with_file depth found ws (value c).file (deepest ws c))
            ∙ ap (λ o. some (found_from depth found o)) (sym (deepest-with_file w ws ent cs c e))
      ]
