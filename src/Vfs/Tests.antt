-- ===== src/Vfs/Tests.antt =====
-- kernel/vfs.c: the properties at concrete paths.
use beryllium.Base.{ℕ, ◌≡◌, refl, some, List, [], ◌∷◌, arith}
use beryllium.Strings.{accepts, strspn, strpbrk, strtok_r, int_of_char, difference, strcmp}
use beryllium.Strings.Compare
use beryllium.Strings.Compare.{IsText}
use beryllium.Strings.Tokens.{flush, pieces_from, pieces, All, none_left, one_more}
use beryllium.Vfs.{
  separator_string, pop, push, walk, each_token, is_relative, start, join_size, join, output,
  canonicalize_path,
}
use beryllium.Vfs.Resolved.{Starts, Resolves, path, canonicalize_path-Resolves}
use beryllium.Vfs.Names.{IsName, IsAbsolute, canonicalize_path-IsName}

-- `/dev`
abbrev dev : List ℕ
dev = b'/' ∷ (b'd' ∷ (b'e' ∷ (b'v' ∷ [])))

-- `../x/./y/`
abbrev relative : List ℕ
relative = b'.' ∷ (b'.' ∷ (b'/' ∷ (b'x' ∷ (b'/' ∷ (b'.' ∷ (b'/' ∷ (b'y' ∷ (b'/' ∷ []))))))))

canonicalize_relative : canonicalize_path dev relative ≡ some (b'/' ∷ (b'x' ∷ (b'/' ∷ (b'y' ∷ []))))
unfolding canonicalize_path start each_token is_relative strtok_r strspn strpbrk accepts strcmp
    int_of_char difference pop push walk output join join_size
canonicalize_relative = refl

-- `../x`
abbrev beside : List ℕ
beside = b'.' ∷ (b'.' ∷ (b'/' ∷ (b'x' ∷ [])))

beside-IsText : IsText beside
beside-IsText = Compare.one_more (omega arith) (omega arith) (
    Compare.one_more (omega arith) (omega arith) (
      Compare.one_more (omega arith) (omega arith)
        (Compare.one_more (omega arith) (omega arith) Compare.none_left)))

canonicalize_path-Resolves_example :
    (st : List (List ℕ)) × (r : List (List ℕ)) × Starts dev beside st
    × Resolves (pieces (47 ∷ []) beside) st r
    × (canonicalize_path dev beside ≡ some (path r))
canonicalize_path-Resolves_example =
    canonicalize_path-Resolves dev beside beside-IsText (omega arith)

dev_names : All IsName (pieces separator_string dev)
unfolding pieces pieces_from flush accepts strpbrk strcmp difference int_of_char
dev_names =
    one_more
      (record { piece = record { whole = refl; clear = refl }; not_up = refl; not_dot = refl })
      none_left

canonicalize_path-IsName_example :
    (p : List ℕ) × (canonicalize_path dev relative ≡ some p)
    × IsAbsolute p
    × (p ≡ output (pieces separator_string p))
    × All IsName (pieces separator_string p)
    × ((dir : List ℕ) → canonicalize_path dir p ≡ some p)
canonicalize_path-IsName_example =
    canonicalize_path-IsName dev relative (λ e. dev_names) (omega arith)
