-- ===== src/Vfs/Mounts/Mounted.antt =====
-- kernel/vfs.c: what `vfs_mount` makes of the tree.
use beryllium.Base.{
  ℕ, ◌+◌, ◌≡◌, ◌≢◌, refl, sym, ◌∙◌, ◌⊎◌, inl, inr, true, false, Option, none, some, List, [], ◌∷◌,
  arith, ◌==◌, ne→==, eq_of_==,
}
use beryllium.Strings.{strcmp}
use beryllium.Strings.Compare.{IsText, strcmp_zero}
use beryllium.Strings.Tokens.{All}
use beryllium.Trees.{Node, node, Nodes, nil, cons, value, children, tree_node_create}
use beryllium.Trees.Count.{descendants, below}
use beryllium.Vfs.Mounts.{Entry, child_named, new_entry, set_file}
use beryllium.Vfs.Mounts.Words.{IsWord, IsText-IsWord}

pub differs :
    (s u w : List ℕ)
    → IsText s
    → IsWord u
    → IsWord w
    → (strcmp s w == 0) ≡ true
    → u ≢ w
    → (strcmp s u == 0) ≡ false
differs s u w t hu hw e ne =
    let same : s ≡ w = (strcmp_zero s w t (IsText-IsWord w hw)).0 (eq_of_== (strcmp s w) 0 e) in
    ne→== (strcmp s u) 0 (λ f. ne (sym ((strcmp_zero s u t (IsText-IsWord u hu)).0 f) ∙ same))

module _ {F : Type 0} where
  -- The file at the end of the way along the first children of some names.
  unfoldable pub file_at : List (List ℕ) → Node (Entry F) → Option F
  file_at [] n = (value n).file
  file_at (w ∷ ws) n = elim (child_named w (children n)) [ none ↦ none | some c ↦ file_at ws c ]

  pub file_at-some :
      (w : List ℕ) (us : List (List ℕ)) (ent : Entry F) (cs : Nodes (Entry F)) (c : Node (Entry F))
      → child_named w cs ≡ some c
      → file_at (w ∷ us) (node ent cs) ≡ file_at us c
  unfolding file_at
  file_at-some w us ent cs c e = rw (file_at, e) refl

  pub file_at-none :
      (w : List ℕ) (us : List (List ℕ)) (ent : Entry F) (cs : Nodes (Entry F))
      → child_named w cs ≡ none
      → file_at (w ∷ us) (node ent cs) ≡ none
  unfolding file_at
  file_at-none w us ent cs e = rw (file_at, e) refl

  pub file_at-named :
      (w : List ℕ) (us : List (List ℕ)) (ent : Entry F) (cs ds : Nodes (Entry F))
      → child_named w ds ≡ child_named w cs
      → file_at (w ∷ us) (node ent ds) ≡ file_at (w ∷ us) (node ent cs)
  unfolding file_at
  file_at-named w us ent cs ds e = rw (file_at, e) refl

  -- The names below a node are strings of bytes.
  unfoldable mutual
    pub HasNames : Node (Entry F) → Type 0
    HasNames (node ent cs) = HasNamesIn cs

    pub HasNamesIn : Nodes (Entry F) → Type 0
    HasNamesIn nil = Unit
    HasNamesIn (cons c cs) = IsText (value c).name × HasNames c × HasNamesIn cs

  -- What a walk along `ws` makes of a node `n`: in the place of `m`, where other ways lead to what they led to.
  pub record IsMounted (local_root : F) (ws : List (List ℕ)) (n m : Node (Entry F)) (made code : ℕ)
      : Type 0 where
    pub kept : (us : List (List ℕ)) → All IsWord us → us ≢ ws → file_at us m ≡ file_at us n
    pub result :
        ((file_at ws n ≡ none) × (file_at ws m ≡ some local_root) × (code ≡ 0))
        ⊎ ((f : F) × (file_at ws n ≡ some f) × (file_at ws m ≡ some f) × (code ≡ 3))
    pub names : HasNames m
    pub counted : descendants m ≡ descendants n + made
    pub name : (value m).name ≡ (value n).name

  file_at-node :
      (us : List (List ℕ)) (e1 e2 : Entry F) (cs : Nodes (Entry F))
      → us ≢ []
      → file_at us (node e1 cs) ≡ file_at us (node e2 cs)
  unfolding file_at
  file_at-node [] e1 e2 cs ne = absurd (ne refl)
  file_at-node (u ∷ us) e1 e2 cs ne = refl

  pub set_file-IsMounted :
      (local_root : F) (name : List ℕ) (file : Option F) (cs : Nodes (Entry F))
      → HasNamesIn cs
      → let (m, made, code) = set_file local_root (node (record { name = name; file = file }) cs) in
        IsMounted local_root [] (node (record { name = name; file = file }) cs) m made code
  unfolding set_file file_at HasNames descendants
  set_file-IsMounted local_root name none cs h = record {
    kept = λ us all ne. file_at-node us _ _ cs ne;
    result = inl (refl, refl, refl);
    names = h;
    counted = omega arith;
    name = refl;
  }
  set_file-IsMounted local_root name (some f) cs h = record {
    kept = λ us all ne. refl;
    result = inr (f, refl, refl, refl);
    names = h;
    counted = omega arith;
    name = refl;
  }

  pub file_at-new_entry : (us : List (List ℕ)) (w : List ℕ) → file_at us (new_entry w) ≡ none
  unfolding file_at new_entry tree_node_create child_named
  file_at-new_entry [] w = refl
  file_at-new_entry (u ∷ us) w = refl

  -- What a round of the walk makes of the children: the one for `w` is `m`, out of `c`, which is new if
  -- there was none.
  pub record IsGrown (local_root : F) (w : List ℕ) (ws : List (List ℕ)) (cs ds : Nodes (Entry F))
      (made code : ℕ) : Type 0 where
    pub kept : (u : List ℕ) → IsWord u → u ≢ w → child_named u ds ≡ child_named u cs
    pub before : Node (Entry F)
    pub after : Node (Entry F)
    pub new : ℕ
    pub grown : IsMounted local_root ws before after new code
    pub was :
        (child_named w cs ≡ some before) ⊎ ((child_named w cs ≡ none) × (before ≡ new_entry w))
    pub found : child_named w ds ≡ some after
    pub names : HasNamesIn ds
    pub counted : below ds ≡ below cs + made

  pub step-IsGrown :
      (local_root : F) (w : List ℕ) (ws : List (List ℕ)) (c m : Node (Entry F))
      (cs : Nodes (Entry F)) (made code : ℕ)
      → IsWord w
      → (strcmp (value c).name w == 0) ≡ true
      → HasNamesIn (cons c cs)
      → IsMounted local_root ws c m made code
      → IsGrown local_root w ws (cons c cs) (cons m cs) made code
  unfolding child_named HasNames below
  step-IsGrown local_root w ws c m cs made code hw e (text, hc, hcs) g = record {
    kept = λ u hu ne.
        let other = differs (value c).name u w text hu hw e ne in
        rw (g.name, child_named, other) refl;
    before = c;
    after = m;
    new = made;
    grown = g;
    was = inl (rw e refl);
    found = rw (g.name, child_named, e) refl;
    names = (rw g.name text, g.names, hcs);
    counted = omega (arith, g.counted);
  }
