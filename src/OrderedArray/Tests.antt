-- ===== src/OrderedArray/Tests.antt =====
-- kernel/arch/x86/lib/ordered_array.c: the theorems at small arrays of the standard predicate.
use mathlib.Core.List.{Perm}
use beryllium.Base.{ℕ, ◌≡◌, refl, some, List, [], ◌∷◌, arith, true, false}
use beryllium.OrderedArray.{standard, insert}
use beryllium.OrderedArray.Insert.{laid, inserted}
use beryllium.OrderedArray.Order.{IsSorted, insert-IsSorted}

standard_asym : (a b : ℕ) → standard a b ≡ true → standard b a ≡ false
unfolding standard
standard_asym a b h = ground arith

middle : inserted standard 5 (3 ∷ 7 ∷ []) ≡ 3 ∷ 5 ∷ 7 ∷ []
unfolding inserted standard
middle = refl

abbrev two_items : List ℕ
two_items = 3 ∷ 7 ∷ []

two_items-IsSorted : IsSorted standard two_items
unfolding standard
two_items-IsSorted = (refl, tt)

insert-IsSorted_example :
    (ys : List ℕ) × (insert 5 (laid standard two_items (0 ∷ [])) ≡ some (laid standard ys []))
    × IsSorted standard ys
    × Perm ys (5 ∷ two_items)
insert-IsSorted_example =
    insert-IsSorted standard standard_asym 5 0 two_items [] (omega arith) two_items-IsSorted
