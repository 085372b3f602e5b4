-- ===== src/Heap/Blocks.antt =====
-- kernel/malloc.c as seen from outside: the heap as the list of its blocks, each a size and whether it
-- is free. The blocks lie one behind the other, so that the sizes before a block are its address.
use beryllium.Base.{
  ℕ, ◌+◌, ◌-◌, Bool, true, false, ◌&&◌, Option, none, some, List, [], ◌∷◌, leb, if◌then◌else◌,
}

pub record Block : Type 0 where
  pub size : ℕ
  pub is_free : Bool

abbrev pub used : ℕ → Block
used n = record { size = n; is_free = false }

abbrev pub unused : ℕ → Block
unused n = record { size = n; is_free = true }

-- The free block of a size in front of others, with which it becomes one if the first is free.
unfoldable pub put_unused : ℕ → List Block → List Block
put_unused n [] = unused n ∷ []
put_unused n (b ∷ bs) = if b.is_free then unused (n + b.size + 16) ∷ bs else unused n ∷ (b ∷ bs)

-- A free block of size `s` is used for `n` bytes: what is left becomes a block if it has room for one.
unfoldable pub carve : (n s : ℕ) → List Block → List Block
carve n s bs = if leb 20 (s - n) then used n ∷ put_unused (s - n - 16) bs else used s ∷ bs

-- A block in front of what was found behind it.
unfoldable pub put_before :
    Block → Option (List Block × ℕ × List Block) → Option (List Block × ℕ × List Block)
put_before b none = none
put_before b (some (before, s, behind)) = some (b ∷ before, s, behind)

-- The blocks before the first one that is free and large enough, that block's size and the blocks behind it.
unfoldable pub first_fit : ℕ → List Block → Option (List Block × ℕ × List Block)
first_fit n [] = none
first_fit n (b ∷ bs) =
    if b.is_free && leb n b.size then some ([], b.size, bs) else put_before b (first_fit n bs)

-- The block between `before` and `behind`, of `s` bytes, becomes free.
unfoldable pub give_back : (before : List Block) (s : ℕ) (behind : List Block) → List Block
give_back [] s behind = put_unused s behind
give_back (b ∷ []) s behind =
    if b.is_free then put_unused (b.size + s + 16) behind else b ∷ put_unused s behind
give_back (b ∷ (c ∷ before)) s behind = b ∷ give_back (c ∷ before) s behind
