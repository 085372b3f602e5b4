-- ===== src/Vfs/Mounts/Walks.antt =====
-- kernel/vfs.c: the walk of `vfs_mount` along the words of a path.
use beryllium.Base.{
  gt→leb, ℕ, zero, suc, ◌+◌, ◌<◌, ◌≡◌, ◌≢◌, refl, sym, ap, ◌∙◌, ◌⊎◌, inl, inr, false, Option, none,
  some, List, [], ◌∷◌, arith, leb, ◌==◌, Bool-cases, eq_of_==, length,
}
use beryllium.Strings.{strcmp}
use beryllium.Strings.Compare.{strcmp_zero, strcmp_refl}
use beryllium.Strings.Tokens.{All, one_more}
use beryllium.Trees.{Node, node, Nodes, nil, cons, value, tree_node_create}
use beryllium.Trees.Count.{descendants, below}
use beryllium.Vfs.Mounts.{Entry, Walked, word, skip, child_named, new_entry, walk_in, walk_from}
use beryllium.Vfs.Mounts.Words.{
  IsWord, IsText-IsWord, buffer, word-buffer, skip-buffer, length-buffer,
}
use beryllium.Vfs.Mounts.Mounted.{
  differs, file_at, HasNames, HasNamesIn, IsMounted, file_at-some, file_at-none, file_at-named,
  set_file-IsMounted, file_at-new_entry, IsGrown, step-IsGrown,
}

module _ {F : Type 0} where
  new-IsGrown :
      (local_root : F) (w : List ℕ) (ws : List (List ℕ)) (m : Node (Entry F)) (made code : ℕ)
      → IsWord w
      → IsMounted local_root ws (new_entry w) m made code
      → IsGrown local_root w ws nil (cons m nil) (made + 1) code
  unfolding child_named HasNames below descendants new_entry tree_node_create
  new-IsGrown local_root w ws m made code hw g =
      let named : (value m).name ≡ w = g.name in
      record {
        kept = λ u hu ne.
            rw
              (
                named,
                child_named,
                differs w u w (IsText-IsWord w hw) hu hw (rw (strcmp_refl w) refl) ne,
              )
              refl;
        before = new_entry w;
        after = m;
        new = made;
        grown = g;
        was = inr (refl, refl);
        found = rw (named, child_named, strcmp_refl w) refl;
        names = (rw named (IsText-IsWord w hw), g.names, tt);
        counted = omega (arith, g.counted);
      }

  skip-IsGrown :
      (local_root : F) (w : List ℕ) (ws : List (List ℕ)) (c : Node (Entry F))
      (cs ds : Nodes (Entry F)) (made code : ℕ)
      → (strcmp (value c).name w == 0) ≡ false
      → HasNamesIn (cons c cs)
      → IsGrown local_root w ws cs ds made code
      → IsGrown local_root w ws (cons c cs) (cons c ds) made code
  unfolding child_named HasNames below
  skip-IsGrown local_root w ws c cs ds made code e (text, hc, hcs) g = record {
    kept = λ u hu ne. rw (g.kept u hu ne) refl;
    before = g.before;
    after = g.after;
    new = g.new;
    grown = g.grown;
    was = rw e g.was;
    found = rw e g.found;
    names = (text, hc, g.names);
    counted = omega (arith, g.counted);
  }

  walk_in-IsGrown :
      (step : Node (Entry F) → Option (Walked (Node (Entry F)))) (local_root : F) (w : List ℕ)
      (ws : List (List ℕ))
      → IsWord w
      → ((n : Node (Entry F))
          → HasNames n
          → (m : Node (Entry F)) × (made : ℕ) × (code : ℕ) × (step n ≡ some (m, made, code))
            × IsMounted local_root ws n m made code)
      → (cs : Nodes (Entry F)) → HasNamesIn cs
      → (ds : Nodes (Entry F)) × (made : ℕ) × (code : ℕ) × (walk_in step w cs
          ≡ some (ds, made, code))
        × IsGrown local_root w ws cs ds made code
  unfolding walk_in HasNames new_entry tree_node_create
  walk_in-IsGrown step local_root w ws hw goes nil h =
      let (m, made, code, e, g) = goes (new_entry w) tt in
      (cons m nil, made + 1, code, rw e refl, new-IsGrown local_root w ws m made code hw g)
  walk_in-IsGrown step local_root w ws hw goes (cons c cs) h =
      elim (Bool-cases (strcmp (value c).name w == 0)) [
        | inl same ↦
            let (m, made, code, e, g) = goes c h.1 in
            (
              cons m cs,
              made,
              code,
              rw (walk_in, same, e) refl,
              step-IsGrown local_root w ws c m cs made code hw same h g,
            )
        | inr other ↦
            let (ds, made, code, e, g) = walk_in-IsGrown step local_root w ws hw goes cs h.2 in
            (
              cons c ds,
              made,
              code,
              rw (walk_in, other, e) refl,
              skip-IsGrown local_root w ws c cs ds made code other h g,
            )
      ]

  file_at-was :
      (w : List ℕ) (us : List (List ℕ)) (ent : Entry F) (cs : Nodes (Entry F)) (c : Node (Entry F))
      → (child_named w cs ≡ some c) ⊎ ((child_named w cs ≡ none) × (c ≡ new_entry w))
      → file_at (w ∷ us) (node ent cs) ≡ file_at us c
  file_at-was w us ent cs c (inl e) = file_at-some w us ent cs c e
  file_at-was w us ent cs c (inr (e, new)) =
      file_at-none w us ent cs e ∙ sym (ap (file_at us) new ∙ file_at-new_entry us w)

  -- A way along `w` and on, through the children that a round has made.
  file_at-kept :
      (local_root : F) (w : List ℕ) (ws : List (List ℕ)) (ent : Entry F) (cs ds : Nodes (Entry F))
      (made code : ℕ) (us : List (List ℕ))
      → IsWord w
      → IsGrown local_root w ws cs ds made code
      → All IsWord us
      → us ≢ w ∷ ws
      → file_at us (node ent ds) ≡ file_at us (node ent cs)
  unfolding file_at
  file_at-kept local_root w ws ent cs ds made code [] hw g all ne = refl
  file_at-kept local_root w ws ent cs ds made code (u ∷ us) hw g (one_more hu all) ne =
      elim (Bool-cases (strcmp u w == 0)) [
        | inl e ↦
            let same : u ≡ w =
              (strcmp_zero u w (IsText-IsWord u hu) (IsText-IsWord w hw)).0
                (eq_of_== (strcmp u w) 0 e) in
            let inner = g.grown.kept us all (λ f. ne (cc (same, f))) in
            rw same (
              file_at-some w us ent ds g.after g.found
              ∙ inner
              ∙ sym (file_at-was w us ent cs g.before g.was))
        | inr e ↦
            let other : u ≢ w =
              λ f. cc (rw ((strcmp_zero u w (IsText-IsWord u hu) (IsText-IsWord w hw)).1 f) at e) in
            file_at-named u us ent cs ds (g.kept u hu other)
      ]

  IsMounted-IsGrown :
      (local_root : F) (w : List ℕ) (ws : List (List ℕ)) (ent : Entry F) (cs ds : Nodes (Entry F))
      (made code : ℕ)
      → IsWord w
      → IsGrown local_root w ws cs ds made code
      → IsMounted local_root (w ∷ ws) (node ent cs) (node ent ds) made code
  unfolding file_at HasNames descendants
  IsMounted-IsGrown local_root w ws ent cs ds made code hw g = record {
    kept = λ us all ne. file_at-kept local_root w ws ent cs ds made code us hw g all ne;
    result = elim g.grown.result [
      | inl (e, f, c) ↦ inl (
        file_at-was w ws ent cs g.before g.was ∙ e,
        file_at-some w ws ent ds g.after g.found ∙ f,
        c,
      )
      | inr (x, e, f, c) ↦ inr (
        x,
        file_at-was w ws ent cs g.before g.was ∙ e,
        file_at-some w ws ent ds g.after g.found ∙ f,
        c,
      )
    ];
    names = g.names;
    counted = g.counted;
    name = refl;
  }

  walk_from-walk_in :
      (fuel : ℕ) (local_root : F) (at left w : List ℕ) (ent : Entry F) (cs ds : Nodes (Entry F))
      (made code : ℕ)
      → leb (length at) 1 ≡ false
      → skip at ≡ left
      → word at ≡ w
      → walk_in (walk_from fuel local_root left) w cs ≡ some (ds, made, code)
      → walk_from (suc fuel) local_root at (node ent cs) ≡ some (node ent ds, made, code)
  unfolding walk_from
  walk_from-walk_in fuel local_root at left w ent cs ds made code more next here e =
      rw (walk_from, more, next, here, e) refl

  -- The walk along words comes to its end in as many rounds as there are words, and one.
  pub walk_from-IsMounted :
      (ws : List (List ℕ)) (fuel : ℕ) (local_root : F) (n : Node (Entry F))
      → All IsWord ws
      → length ws < fuel
      → HasNames n
      → (m : Node (Entry F)) × (made : ℕ) × (code : ℕ) × (walk_from fuel local_root (buffer ws) n
          ≡ some (m, made, code))
        × IsMounted local_root ws n m made code
  unfolding walk_from buffer HasNames
  walk_from-IsMounted ws zero local_root n all h names = absurd (omega (arith, h))
  walk_from-IsMounted [] (suc fuel) local_root (node ent cs) all h names =
      (_, _, _, refl, set_file-IsMounted local_root ent.name ent.file cs names)
  walk_from-IsMounted (w ∷ ws) (suc fuel) local_root (node ent cs) (one_more hw all) h names =
      let (ds, made, code, e, g) =
        walk_in-IsGrown (walk_from fuel local_root (buffer ws)) local_root w ws hw
          (λ n hn. walk_from-IsMounted ws fuel local_root n all (omega (arith, h)) hn) cs names in
      (
        node ent ds,
        made,
        code,
        walk_from-walk_in fuel local_root (buffer (w ∷ ws)) (buffer ws) w ent cs ds made code
            (gt→leb (length (buffer (w ∷ ws))) 1 (omega (arith, length-buffer w ws hw)))
            (skip-buffer w ws hw) (word-buffer w ws hw) e,
        IsMounted-IsGrown local_root w ws ent cs ds made code hw g,
      )
