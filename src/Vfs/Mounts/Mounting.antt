-- ===== src/Vfs/Mounts/Mounting.antt =====
-- kernel/vfs.c: what `vfs_mount` promises.
use beryllium.Base.{
  ℕ, suc, ◌+◌, ◌%◌, ◌^◌, ◌≤◌, ◌≡◌, ◌≢◌, refl, sym, ap, ◌∙◌, ◌⊎◌, inl, inr, false, Option, none,
  some, ◌>>=◌, List, [], ◌∷◌, arith, ne→==, length, length-append, drop,
}
use beryllium.Strings.Tokens.{All, none_left, one_more}
use beryllium.Trees.{
  Node, node, Nodes, Tree, value, children, tree_create, tree_set_root, tree_node_create,
}
use beryllium.Trees.Count.{descendants}
use beryllium.Vfs.{separator, join}
use beryllium.Vfs.Mounts.{
  Entry, Vfs, root_name, new_entry, chop, vfs_init, set_file, walk_from, is_nul, mount_root,
  mount_path, is_absolute, vfs_mount,
}
use beryllium.Vfs.Mounts.Words.{IsWord, byte, buffer, chop-join}
use beryllium.Vfs.Mounts.Mounted.{
  file_at, HasNames, HasNamesIn, IsMounted, file_at-new_entry, set_file-IsMounted,
}
use beryllium.Vfs.Mounts.Walks.{walk_from-IsMounted}

-- The absolute path of some words.
abbrev pub path_of : List (List ℕ) → List ℕ
path_of [] = separator ∷ []
path_of (w ∷ ws) = join (w ∷ ws)

length-join_words : (ws : List (List ℕ)) → length ws ≤ length (join ws)
unfolding join
length-join_words [] = omega arith
length-join_words (w ∷ ws) = omega (arith, length-append w (join ws), length-join_words ws)

is_nul-buffer : (w : List ℕ) (ws : List (List ℕ)) → IsWord w → is_nul (buffer (w ∷ ws)) ≡ false
unfolding is_nul buffer
is_nul-buffer [] ws h = elim h [ ]
is_nul-buffer (c ∷ w) ws (byte lo hi ne part) = ne→== c 0 (λ e. absurd (omega (arith, lo, e)))

module _ {F : Type 0} where
  -- The tree is there with its root, whose file `vfs_root_node` is; the names in it are strings and
  -- its nodes are counted.
  pub record IsVfs (v : Vfs F) : Type 0 where
    pub tree : Tree (Entry F)
    pub top : Node (Entry F)
    pub has_tree : v.vfs_tree ≡ some tree
    pub has_root : tree.root ≡ some top
    pub names : HasNames top
    pub counted : tree.nodes ≡ suc (descendants top) % 2 ^ 32
    pub shortcut : v.vfs_root_node ≡ file_at [] top

  -- The file that is mounted at the path of some words.
  unfoldable pub mounted : List (List ℕ) → Vfs F → Option F
  mounted ws v = do t ← v.vfs_tree; n ← t.root; file_at ws n

  pub mounted-IsVfs :
      (ws : List (List ℕ)) (v : Vfs F) (h : IsVfs v) → mounted ws v ≡ file_at ws h.top
  unfolding mounted
  mounted-IsVfs ws v h = rw (h.has_tree, h.has_root) refl

  -- After `vfs_init` nothing is mounted anywhere.
  pub vfs_init-IsVfs :
      (v : Vfs F)
      → v.vfs_root_node ≡ none
      → IsVfs (vfs_init v) × ((ws : List (List ℕ)) → mounted ws (vfs_init v) ≡ none)
  unfolding vfs_init tree_set_root tree_create tree_node_create mounted HasNames descendants
      new_entry file_at
  vfs_init-IsVfs v e = (
    record {
      tree = _;
      top = _;
      has_tree = refl;
      has_root = refl;
      names = tt;
      counted = refl;
      shortcut = e;
    },
    λ ws. file_at-new_entry ws root_name,
  )

  -- What a mount leaves, and what it returns.
  pub record Outcome (local_root : F) (ws : List (List ℕ)) (v u : Vfs F) (code : ℕ) : Type 0 where
    pub well : IsVfs u
    pub kept : (us : List (List ℕ)) → All IsWord us → us ≢ ws → mounted us u ≡ mounted us v
    pub result :
        ((mounted ws v ≡ none) × (mounted ws u ≡ some local_root) × (code ≡ 0))
        ⊎ ((f : F) × (mounted ws v ≡ some f) × (mounted ws u ≡ some f) × (code ≡ 3))

  outcome :
      (local_root : F) (ws : List (List ℕ)) (v u : Vfs F) (made code : ℕ) (hv : IsVfs v)
      (hu : IsVfs u)
      → IsMounted local_root ws hv.top hu.top made code
      → Outcome local_root ws v u code
  outcome local_root ws v u made code hv hu g = record {
    well = hu;
    kept = λ us all ne. mounted-IsVfs us u hu ∙ g.kept us all ne ∙ sym (mounted-IsVfs us v hv);
    result = elim g.result [
      | inl (e, f, c) ↦ inl (mounted-IsVfs ws v hv ∙ e, mounted-IsVfs ws u hu ∙ f, c)
      | inr (x, e, f, c) ↦ inr (x, mounted-IsVfs ws v hv ∙ e, mounted-IsVfs ws u hu ∙ f, c)
    ];
  }

  mount_root-Outcome :
      (local_root : F) (v : Vfs F) (h : IsVfs v) (name : List ℕ) (file : Option F)
      (cs : Nodes (Entry F))
      → h.top ≡ node (record { name = name; file = file }) cs
      → let (u, code) = mount_root local_root h.tree h.top v in Outcome local_root [] v u code
  unfolding mount_root set_file file_at HasNames descendants
  mount_root-Outcome local_root v h name none cs e =
      let below_names : HasNamesIn cs = rw e at h.names in
      let g = set_file-IsMounted local_root name none cs below_names in
      let total = rw e at h.counted in
      rw e (
        outcome local_root [] v _ 0 0 h
          (record {
            tree = _;
            top = node (record { name = name; file = some local_root }) cs;
            has_tree = refl;
            has_root = refl;
            names = below_names;
            counted = omega (arith, total);
            shortcut = refl;
          })
          (rw e g))
  mount_root-Outcome local_root v h name (some f) cs e = rw e (
      outcome local_root [] v v 0 3 h h
        (rw e (set_file-IsMounted local_root name (some f) cs (rw e at h.names))))

  mount_path-walk :
      (path at : List ℕ) (local_root : F) (t : Tree (Entry F)) (v : Vfs F) (n m : Node (Entry F))
      (made code : ℕ)
      → t.root ≡ some n
      → drop 1 (chop path) ≡ at
      → is_nul at ≡ false
      → walk_from (suc (length path)) local_root at n ≡ some (m, made, code)
      → mount_path path local_root t v
        ≡ some (
          record v {
            vfs_tree = some (record { nodes = (t.nodes + made) % 2 ^ 32; root = some m });
          },
          code,
        )
  unfolding mount_path
  mount_path-walk path at local_root t v n m made code e0 e1 e2 e3 = simp (e0, e1, e2, e3) refl

  mount_path-Outcome :
      (local_root : F) (w : List ℕ) (ws : List (List ℕ)) (v : Vfs F) (h : IsVfs v)
      → All IsWord (w ∷ ws)
      → (u : Vfs F) × (code : ℕ) × (mount_path (join (w ∷ ws)) local_root h.tree v ≡ some (u, code))
        × Outcome local_root (w ∷ ws) v u code
  unfolding mount_path
  mount_path-Outcome local_root w ws v h (one_more hw all) =
      let (m, made, code, e, g) =
        walk_from-IsMounted (w ∷ ws) (suc (length (join (w ∷ ws)))) local_root h.top
          (one_more hw all) (omega (arith, length-join_words (w ∷ ws))) h.names in
      let u : Vfs F = record v {
        vfs_tree = some (record { nodes = (h.tree.nodes + made) % 2 ^ 32; root = some m });
      } in
      let hu : IsVfs u = record {
        tree = _;
        top = m;
        has_tree = refl;
        has_root = refl;
        names = g.names;
        counted = omega (arith, h.counted, g.counted);
        shortcut = h.shortcut ∙ sym (g.kept [] none_left (λ f. cc f));
      } in
      (
        u,
        code,
        mount_path-walk (join (w ∷ ws)) (buffer (w ∷ ws)) local_root h.tree v h.top m made code
            h.has_root (ap (drop 1) (chop-join (w ∷ ws) (one_more hw all))) (is_nul-buffer w ws hw)
            e,
        outcome local_root (w ∷ ws) v u made code h hu g,
      )

  node_eta : (n : Node (Entry F)) → n ≡ node (value n) (children n)
  node_eta (node ent cs) = refl

  vfs_mount-mount_path :
      (ws : List (List ℕ)) (local_root : F) (v : Vfs F) (t : Tree (Entry F))
      → v.vfs_tree ≡ some t
      → vfs_mount (some (path_of ws)) local_root v ≡ mount_path (path_of ws) local_root t v
  unfolding vfs_mount mount_path is_absolute join
  vfs_mount-mount_path [] local_root v t e = rw (vfs_mount, e) refl
  vfs_mount-mount_path (w ∷ ws) local_root v t e = rw (vfs_mount, e) refl

  mount_path-mount_root :
      (local_root : F) (t : Tree (Entry F)) (n : Node (Entry F)) (v : Vfs F)
      → t.root ≡ some n
      → mount_path (path_of []) local_root t v ≡ some (mount_root local_root t n v)
  unfolding mount_path is_nul chop
  mount_path-mount_root local_root t n v e = simp e refl

  -- In a well-formed state with its tree, `vfs_mount` of the absolute path of some words returns, and leaves the
  -- state well-formed. If nothing is mounted at that path it mounts the node there and returns 0, and
  -- otherwise leaves what is mounted there and returns 3. At every other path the same is mounted as before.
  pub vfs_mount-Outcome :
      (local_root : F) (ws : List (List ℕ)) (v : Vfs F)
      → IsVfs v
      → All IsWord ws
      → (u : Vfs F) × (code : ℕ) × (vfs_mount (some (path_of ws)) local_root v ≡ some (u, code))
        × Outcome local_root ws v u code
  vfs_mount-Outcome local_root [] v h all = (
    _,
    _,
    vfs_mount-mount_path [] local_root v h.tree h.has_tree
        ∙ mount_path-mount_root local_root h.tree h.top v h.has_root,
    mount_root-Outcome local_root v h (value h.top).name (value h.top).file (children h.top)
        (node_eta h.top),
  )
  vfs_mount-Outcome local_root (w ∷ ws) v h all =
      let (u, code, e, g) = mount_path-Outcome local_root w ws v h all in
      (u, code, vfs_mount-mount_path (w ∷ ws) local_root v h.tree h.has_tree ∙ e, g)
