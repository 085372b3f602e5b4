-- ===== src/Vfs/Open/Opened.antt =====
-- kernel/vfs.c: what `kopen` promises, alone and after `vfs_mount`.
use beryllium.Base.{
  ℕ, ◌+◌, ◌^◌, ◌<◌, ◌≡◌, refl, sym, ap, ◌∙◌, ◌⊎◌, inl, inr, Option, none, some, List, [], ◌∷◌,
  arith, length, take, drop,
}
use beryllium.Strings.Compare.{IsText}
use beryllium.Strings.Tokens.{All}
use beryllium.Trees.{Tree, Node}
use beryllium.Vfs.{join_size, join, output, canonicalize_path}
use beryllium.Vfs.Canonical.{resolve, canonicalize_path-resolve}
use beryllium.Vfs.Names.{output-join}
use beryllium.Vfs.Sizes.{length-join-resolve}
use beryllium.Vfs.Nodes.{Driver}
use beryllium.Vfs.Mounts.{Vfs, Entry, vfs_mount}
use beryllium.Vfs.Mounts.Words.{IsWord}
use beryllium.Vfs.Mounts.Mounting.{path_of, IsVfs, mounted, vfs_mount-Outcome}
use beryllium.Vfs.Mounts.Prefixes.{IsMountPoint, get_mount_point-IsLongest}
use beryllium.Vfs.Open.{cwd, open_path, kopen}
use beryllium.Vfs.Open.Followed.{follow, open_path-follow}
use beryllium.Vfs.Open.Texts.{resolve-IsWord}

-- A file name that C can hold: bytes, and shorter than the address space with what is put before it.
pub record IsFilename (name : List ℕ) : Type 0 where
  pub text : IsText name
  pub short : length name + 3 < 2 ^ 32

output-path_of : (ws : List (List ℕ)) → length (join ws) < 2 ^ 32 → output ws ≡ path_of ws
unfolding output join_size
output-path_of [] h = refl
output-path_of (w ∷ ws) h = output-join w ws h

-- The canonical path of a file name is that of the words it resolves to.
canonicalize_path-path_of :
    (name : List ℕ)
    → IsFilename name
    → canonicalize_path cwd name ≡ some (path_of (resolve cwd name))
canonicalize_path-path_of name h =
    let short = h.short in
    canonicalize_path-resolve cwd name
    ∙ ap some
        (output-path_of (resolve cwd name) (omega (arith, length-join-resolve cwd name, short)))

take-length : (ws : List (List ℕ)) → take (length ws) ws ≡ ws
take-length [] = refl
take-length (w ∷ ws) = ap (λ us. w ∷ us) (take-length ws)

drop-length : (ws : List (List ℕ)) → drop (length ws) ws ≡ []
drop-length [] = refl
drop-length (w ∷ ws) = drop-length ws

fresh_mount :
    {F : Type 0}
    → {a b : Option F} {x : F} {code : ℕ}
    → ((a ≡ none) × (b ≡ some x) × (code ≡ 0))
      ⊎ ((f : F) × (a ≡ some f) × (b ≡ some f) × (code ≡ 3))
    → a ≡ none
    → (b ≡ some x) × (code ≡ 0)
fresh_mount (inl (e, f, c)) free = (f, c)
fresh_mount (inr (y, e, f, c)) free = absurd (cc (e, free))

module _ {F : Type 0} where
  -- With a root, every list of words has its mount point.
  mount_point :
      (v : Vfs F) (ws : List (List ℕ)) (root : F)
      → IsVfs v
      → mounted [] v ≡ some root
      → All IsWord ws
      → (count : ℕ) × (node : F) × IsMountPoint v ws count node
  mount_point v ws root h at_root all =
      let (found, e, g) = get_mount_point-IsLongest v ws h all in
      elim g.there [
        | inl z ↦ (
          0,
          root,
          record {
            within = omega arith;
            here = at_root;
            longest = λ i b l. g.longest i (omega (arith, b, z)) l;
          },
        )
        | inr (f, some_file) ↦ (
          g.count,
          f,
          record { within = g.within; here = sym g.last ∙ some_file; longest = g.longest },
        )
      ]

module _ {F W : Type 0} (driver : Driver F W) (flags : ℕ) where
  pub kopen-open_path :
      (name path : List ℕ) (v : Vfs F) (w : W) (t : Tree (Entry F)) (r : Node (Entry F))
      → v.vfs_tree ≡ some t
      → t.root ≡ some r
      → canonicalize_path cwd name ≡ some path
      → kopen driver (some name) flags v w ≡ open_path driver path flags v w
  unfolding kopen
  kopen-open_path name path v w t r e0 e1 e2 = simp (e0, e1, e2) refl

  pub kopen-IsMountPoint :
      (name : List ℕ) (v : Vfs F) (w : W) (count : ℕ) (node : F)
      → IsVfs v
      → IsFilename name
      → IsMountPoint v (resolve cwd name) count node
      → kopen driver (some name) flags v w
        ≡ some (follow driver flags node (drop count (resolve cwd name)) w)
  kopen-IsMountPoint name v w count node h filename at =
      kopen-open_path name (path_of (resolve cwd name)) v w h.tree h.top h.has_tree h.has_root
        (canonicalize_path-path_of name filename)
      ∙ open_path-follow driver flags (resolve cwd name) v w count node h
          (resolve-IsWord name filename.text) at

  -- In a well-formed state with a mounted root, `kopen` returns for every file name of bytes: it resolves the
  -- name from the root, takes the node that is mounted at the longest beginning of the words at which one
  -- is, and follows the other words from there, each through `finddir` of the node before, NULL at
  -- the first that is not found. The node that the last of them leads to is opened; with none left the
  -- mounted node itself is returned.
  pub kopen-follow :
      (name : List ℕ) (v : Vfs F) (w : W) (root : F)
      → IsVfs v
      → mounted [] v ≡ some root
      → IsFilename name
      → (count : ℕ) × (node : F) × IsMountPoint v (resolve cwd name) count node
        × (kopen driver (some name) flags v w
            ≡ some (follow driver flags node (drop count (resolve cwd name)) w))
  kopen-follow name v w root h at_root filename =
      let (count, node, at) =
        mount_point v (resolve cwd name) root h at_root (resolve-IsWord name filename.text) in
      (count, node, at, kopen-IsMountPoint name v w count node h filename at)

  -- In a well-formed state, `vfs_mount` of the path that a file name resolves to returns 0 if nothing is
  -- mounted there, and `kopen` of that file name then returns a copy of the node that was mounted, without
  -- opening anything. Nothing needs to be mounted at the root.
  pub vfs_mount-kopen :
      (local_root : F) (name : List ℕ) (v : Vfs F) (w : W)
      → IsVfs v
      → IsFilename name
      → mounted (resolve cwd name) v ≡ none
      → (u : Vfs F) × (vfs_mount (some (path_of (resolve cwd name))) local_root v ≡ some (u, 0))
        × (kopen driver (some name) flags u w ≡ some (w, some local_root))
  unfolding follow
  vfs_mount-kopen local_root name v w h filename free =
      let ws = resolve cwd name in
      let (u, code, e, out) =
        vfs_mount-Outcome local_root ws v h (resolve-IsWord name filename.text) in
      let (here, zero_code) = fresh_mount out.result free in
      (
        u,
        rw zero_code at e,
        kopen-IsMountPoint name u w (length ws) local_root out.well filename (record {
          within = omega arith;
          here = ap (λ us. mounted us u) (take-length ws) ∙ here;
          longest = λ i b l. absurd (omega (arith, b, l));
        })
            ∙ ap (λ us. some (follow driver flags local_root us w)) (drop-length ws),
      )
