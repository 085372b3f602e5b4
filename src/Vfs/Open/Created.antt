-- ===== src/Vfs/Open/Created.antt =====
-- kernel/vfs.c: what `create_file_vfs` does.
use beryllium.Base.{
  ℕ, zero, suc, ◌+◌, ◌-◌, ◌^◌, ◌≤◌, ◌<◌, ◌≡◌, refl, ap, ◌∙◌, false, Option, none, some, ◌>>=◌, List,
  [], ◌∷◌, ◌++◌, arith, ◌==◌, ne→==, Option-cases, inl, inr, length, length-append, drop, get_or,
}
use beryllium.Strings.{accepts}
use beryllium.Strings.Tokens.{flush, pieces_from, pieces, All, none_left}
use beryllium.Vfs.{separator, separator_string, canonicalize_path}
use beryllium.Vfs.Names.{IsName, canonicalize_path-IsName}
use beryllium.Vfs.Nodes.{Driver}
use beryllium.Vfs.Mounts.{Vfs}
use beryllium.Vfs.Mounts.Words.{IsPart, byte}
use beryllium.Vfs.Mounts.Mounting.{IsVfs}
use beryllium.Vfs.Open.{cwd, kopen, f_path, create_in, create_file_vfs}
use beryllium.Vfs.Open.Opened.{IsFilename, kopen-open_path}

get_or-append : (a ys : List ℕ) (i k : ℕ) → i ≡ length a + k → get_or (a ++ ys) i 0 ≡ get_or ys k 0
get_or-append [] ys i k e = ap (λ j. get_or ys j 0) (omega (arith, e))
get_or-append (c ∷ a) ys zero k e = absurd (omega (arith, e))
get_or-append (c ∷ a) ys (suc i) k e = get_or-append a ys i k (omega (arith, e))

drop-behind : (a ys : List ℕ) (c i : ℕ) → i ≡ length a → drop (suc i) (a ++ (c ∷ ys)) ≡ ys
drop-behind [] ys c zero e = refl
drop-behind [] ys c (suc i) e = absurd (omega (arith, e))
drop-behind (b ∷ a) ys c zero e = absurd (omega (arith, e))
drop-behind (b ∷ a) ys c (suc i) e = drop-behind a ys c i (omega (arith, e))

get_or-part : (x : List ℕ) (k : ℕ) → IsPart x → k < length x → (get_or x k 0 == 47) ≡ false
get_or-part [] k part h = absurd (omega (arith, h))
get_or-part (c ∷ x) zero (byte lo hi ne part) h = ne→== c 47 ne
get_or-part (c ∷ x) (suc k) (byte lo hi ne part) h = get_or-part x k part (omega (arith, h))

-- The scan back from within the last part of a path ends behind the last separator, unless that is the first byte.
scan :
    (c : ℕ) (a x : List ℕ) (i k : ℕ)
    → IsPart x
    → k ≤ length x
    → i ≡ suc (length a) + k
    → f_path ((c ∷ a) ++ (separator ∷ x)) i ≡ x
unfolding f_path
scan c a x zero k part h e = absurd (omega (arith, e))
scan c a x (suc i) zero part h e =
    let j : i ≡ length a = omega (arith, e) in
    rw (f_path, get_or-append a (separator ∷ x) i 0 (omega (arith, j)))
      (drop-behind a x separator i j)
scan c a x (suc i) (suc k) part h e =
    let other : (get_or ((c ∷ a) ++ (separator ∷ x)) (suc i) 0 == separator) ≡ false =
      rw (get_or-append (c ∷ a) (separator ∷ x) (suc i) (suc k) e)
        (get_or-part x k part (omega (arith, h))) in
    rw other (scan c a x i k part (omega (arith, h)) (omega (arith, e)))

pieces-root : All IsName (pieces separator_string cwd)
unfolding pieces pieces_from accepts flush
pieces-root = none_left

-- A canonical path is its own canonical path.
canonical :
    (name path : List ℕ)
    → IsFilename name
    → canonicalize_path cwd name ≡ some path
    → canonicalize_path cwd path ≡ some path
canonical name path h e =
    let short = h.short in
    let (p, f, rooted, joined, names, again) =
      canonicalize_path-IsName cwd name (λ r. pieces-root) (omega (arith, short)) in
    let same : p ≡ path = cc (e, f) in rw same at (again cwd)

module _ {F W : Type 0} (driver : Driver F W) where
  create_file_vfs-path :
      (name path : List ℕ) (permission : ℕ) (v : Vfs F) (w : W)
      → IsVfs v
      → canonicalize_path cwd name ≡ some path
      → canonicalize_path cwd path ≡ some path
      → create_file_vfs driver name permission v w ≡ (
          kopen driver (some name) 0 v w >>= λ r.
          some (create_in driver (f_path path (length path - 1)) permission r.1 r.0))
  unfolding create_file_vfs
  create_file_vfs-path name path permission v w h e f =
      let open_name = kopen-open_path driver 0 name path v w h.tree h.top h.has_tree h.has_root e in
      let open_path = kopen-open_path driver 0 path path v w h.tree h.top h.has_tree h.has_root f in
      simp (e, open_path, open_name) refl

  -- What is created, with what `kopen` has left and returned.
  unfoldable pub IsCreated : (x : List ℕ) (permission : ℕ) → W × Option F → Option (W × ℕ) → Type 0
  IsCreated x permission (w, none) result = result ≡ some (w, 2 ^ 32 - 1)
  IsCreated x permission (w, some file) result = elim (driver.create file) [
    | none ↦ result ≡ some (w, 0)
    | some create ↦ result ≡ some (create x permission w, 0)
  ]

  create_in-IsCreated :
      (x : List ℕ) (permission : ℕ) (r : W × Option F) (result : Option (W × ℕ))
      → result ≡ some (create_in driver x permission r.1 r.0)
      → IsCreated x permission r result
  unfolding create_in IsCreated
  create_in-IsCreated x permission (w, none) result e = e
  create_in-IsCreated x permission (w, some file) result e =
      elim (Option-cases (driver.create file)) [
        | inl f ↦ rw (IsCreated, f) (rw (create_in, f) at e)
        | inr (create, f) ↦ rw (IsCreated, f) (rw (create_in, f) at e)
      ]

  -- For a file name whose canonical path has more than one part, `create_file_vfs` opens that path itself. If
  -- nothing is found there it returns -1 and creates nothing. Otherwise it returns 0, and calls `create` of what it
  -- found with the last part as the name, if that has a `create`.
  pub create_file_vfs-IsCreated :
      (name : List ℕ) (c : ℕ) (a x : List ℕ) (permission : ℕ) (v : Vfs F) (w : W) (r : W × Option F)
      → IsVfs v
      → IsFilename name
      → canonicalize_path cwd name ≡ some ((c ∷ a) ++ (separator ∷ x))
      → IsPart x
      → kopen driver (some name) 0 v w ≡ some r
      → IsCreated x permission r (create_file_vfs driver name permission v w)
  create_file_vfs-IsCreated name c a x permission v w r h filename e part found =
      let path = (c ∷ a) ++ (separator ∷ x) in
      let last : f_path path (length path - 1) ≡ x =
        scan c a x (length path - 1) (length x) part (omega arith)
          (omega (arith, length-append a (separator ∷ x))) in
      create_in-IsCreated x permission r _ (
        create_file_vfs-path name path permission v w h e (canonical name path filename e)
        ∙ rw (found, last) refl)
