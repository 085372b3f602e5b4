-- ===== src/Strings/Tests.antt =====
-- kernel/lib/string.c: the properties at concrete strings.
use beryllium.Base.{ℕ, ◌≡◌, refl, some, List, [], ◌∷◌}
use beryllium.Strings.{accepts, strspn, strpbrk, strtok_r}
use beryllium.Strings.Tokens.{IsCut, strtok_r-IsCut}

-- `//bin/ls`
abbrev ls_path : List ℕ
ls_path = b'/' ∷ (b'/' ∷ (b'b' ∷ (b'i' ∷ (b'n' ∷ (b'/' ∷ (b'l' ∷ (b's' ∷ [])))))))

first_token :
    strtok_r ls_path (b'/' ∷ []) ≡ (some (b'b' ∷ (b'i' ∷ (b'n' ∷ []))), b'l' ∷ (b's' ∷ []))
unfolding strtok_r strspn strpbrk accepts
first_token = refl

strtok_r-IsCut_example : IsCut (b'/' ∷ []) ls_path (strtok_r ls_path (b'/' ∷ []))
strtok_r-IsCut_example = strtok_r-IsCut (b'/' ∷ []) ls_path
