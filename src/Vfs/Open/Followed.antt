-- ===== src/Vfs/Open/Followed.antt =====
-- kernel/vfs.c: what `kopen` returns.
use beryllium.Base.{
  gt→leb, ℕ, zero, suc, ◌-◌, ◌≡◌, refl, sym, ap, ◌∙◌, false, Option, none, some, List, [], ◌∷◌,
  ◌++◌, arith, leb, ◌==◌, ne→==, length, length-drop, take, drop,
}
use beryllium.Strings.Tokens.{All, one_more}
use beryllium.Vfs.{separator, join}
use beryllium.Vfs.Nodes.{Driver, open_vfs, finddir_vfs}
use beryllium.Vfs.Mounts.{Vfs, Found, chop, get_mount_point}
use beryllium.Vfs.Mounts.Words.{
  IsPart, ended, IsWord, byte, IsPart-IsWord, buffer, word-buffer, skip-buffer, length-buffer,
  chop-join,
}
use beryllium.Vfs.Mounts.Mounting.{path_of, IsVfs, mounted, mounted-IsVfs}
use beryllium.Vfs.Mounts.Prefixes.{IsMountPoint, count-IsLongest, get_mount_point-IsLongest}
use beryllium.Vfs.Open.{separators, search_on, dig, open_below, open_path}

separators-part : (w rest : List ℕ) → IsPart w → separators (w ++ rest) ≡ separators rest
unfolding separators
separators-part [] rest ended = refl
separators-part (c ∷ w) rest (byte lo hi ne part) = rw (ne→== c 47 ne) (separators-part w rest part)

separators-join : (ws : List (List ℕ)) → All IsWord ws → separators (join ws) ≡ length ws
unfolding separators join
separators-join [] all = refl
separators-join (w ∷ ws) (one_more hw all) =
    ap suc (separators-part w (join ws) (IsPart-IsWord w hw) ∙ separators-join ws all)

join_long :
    (w : List ℕ) (ws : List (List ℕ)) → All IsWord (w ∷ ws) → (length (join (w ∷ ws)) == 1) ≡ false
unfolding join
join_long [] ws (one_more hw all) = elim hw [ ]
join_long (c ∷ w) ws (one_more hw all) = ne→== _ 1 (λ e. absurd (omega (arith, e)))

All-drop : (n : ℕ) (ws : List (List ℕ)) → All IsWord ws → All IsWord (drop n ws)
All-drop zero ws all = all
All-drop (suc n) [] all = all
All-drop (suc n) (w ∷ ws) (one_more hw all) = All-drop n ws all

module _ {F W : Type 0} (driver : Driver F W) (flags : ℕ) where
  -- From a node along some words: each is looked up in the one before, and the last one is opened. No
  -- words at all lead to the node as it is.
  unfoldable mutual
    pub follow : F → List (List ℕ) → W → W × Option F
    follow node [] w = (w, some node)
    follow node (x ∷ xs) w = follow_on xs (finddir_vfs driver node x w)

    follow_on : List (List ℕ) → W × Option F → W × Option F
    follow_on xs (w, none) = (w, none)
    follow_on [] (w, some next) = (open_vfs driver next flags w, some next)
    follow_on (x ∷ xs) (w, some next) = follow_on xs (finddir_vfs driver next x w)

  search_on-follow_on :
      (xs : List (List ℕ)) (r : W × Option F)
      → All IsWord xs
      → search_on driver (length xs) flags (dig driver (length xs) flags) (buffer xs) r
        ≡ follow_on xs r
  unfolding dig search_on follow
  search_on-follow_on xs (w, none) all = refl
  search_on-follow_on [] (w, some next) all = refl
  search_on-follow_on (x ∷ xs) (w, some next) (one_more hx all) =
      rw (word-buffer x xs hx, skip-buffer x xs hx)
        (search_on-follow_on xs (finddir_vfs driver next x w) all)

  dig-follow :
      (x : List ℕ) (xs : List (List ℕ)) (node : F) (w : W)
      → All IsWord (x ∷ xs)
      → dig driver (suc (length xs)) flags node (buffer (x ∷ xs)) w ≡ follow node (x ∷ xs) w
  unfolding dig follow
  dig-follow x xs node w (one_more hx all) =
      rw (word-buffer x xs hx, skip-buffer x xs hx)
        (search_on-follow_on xs (finddir_vfs driver node x w) all)

  open_below-here :
      (depth rounds : ℕ) (mount_point : Option F) (w : W)
      → open_below driver rounds flags mount_point (buffer []) depth w ≡ some (w, mount_point)
  unfolding open_below buffer
  open_below-here depth rounds mount_point w = refl

  open_below-dig :
      (depth rounds n : ℕ) (node : F) (at : List ℕ) (w : W)
      → leb (length at) 1 ≡ false
      → rounds - depth ≡ n
      → open_below driver rounds flags (some node) at depth w ≡ some (dig driver n flags node at w)
  unfolding open_below
  open_below-dig depth rounds n node at w more h = rw (open_below, more, h) refl

  open_below-follow :
      (left : List (List ℕ)) (depth rounds : ℕ) (node : F) (w : W)
      → All IsWord left
      → rounds - depth ≡ length left
      → open_below driver rounds flags (some node) (buffer left) depth w ≡ some (follow node left w)
  unfolding follow
  open_below-follow [] depth rounds node w all h = open_below-here depth rounds (some node) w
  open_below-follow (x ∷ xs) depth rounds node w (one_more hx all) h =
      open_below-dig depth rounds (suc (length xs)) node (buffer (x ∷ xs)) w
        (gt→leb (length (buffer (x ∷ xs))) 1 (omega (arith, length-buffer x xs hx))) h
      ∙ ap some (dig-follow x xs node w (one_more hx all))

  open_path-get_mount_point :
      (path at : List ℕ) (n : ℕ) (v : Vfs F) (w : W) (found : Found F)
      → (length path == 1) ≡ false
      → chop path ≡ 0 ∷ at
      → separators path ≡ n
      → get_mount_point (0 ∷ at) n at v ≡ some found
      → open_path driver path flags v w ≡ open_below driver n flags found.0 found.1 found.2 w
  unfolding open_path
  open_path-get_mount_point path at n v w found long cut depth e =
      rw (open_path, long, cut, depth, e) refl

  open_path-root :
      (v : Vfs F) (w : W) (node : F)
      → v.vfs_root_node ≡ some node
      → open_path driver (separator ∷ []) flags v w ≡ some (w, some node)
  unfolding open_path
  open_path-root v w node e = simp e refl

  -- The path of some words, of which `count` lead to a mounted node and no more do.
  pub open_path-follow :
      (ws : List (List ℕ)) (v : Vfs F) (w : W) (count : ℕ) (node : F)
      → IsVfs v
      → All IsWord ws
      → IsMountPoint v ws count node
      → open_path driver (path_of ws) flags v w ≡ some (follow node (drop count ws) w)
  unfolding follow
  open_path-follow [] v w zero node hv all h =
      open_path-root v w node (hv.shortcut ∙ sym (mounted-IsVfs [] v hv) ∙ h.here)
  open_path-follow [] v w (suc count) node hv all h =
      let within = h.within in absurd (omega (arith, within))
  open_path-follow (x ∷ xs) v w count node hv all h =
      let (found, e, g) = get_mount_point-IsLongest v (x ∷ xs) hv all in
      let same = count-IsLongest v (x ∷ xs) count node found h g in
      let last = g.last ∙ ap (λ n. mounted (take n (x ∷ xs)) v) same ∙ h.here in
      let left = g.left ∙ ap (λ n. buffer (drop n (x ∷ xs))) same in
      let depth = g.depth ∙ same in
      open_path-get_mount_point (join (x ∷ xs)) (buffer (x ∷ xs)) (length (x ∷ xs)) v w found
        (join_long x xs all) (chop-join (x ∷ xs) all) (separators-join (x ∷ xs) all) e
      ∙ rw (last, left, depth)
          (open_below-follow (drop count (x ∷ xs)) count (length (x ∷ xs)) node w
            (All-drop count (x ∷ xs) all) (sym (length-drop count (x ∷ xs))))
