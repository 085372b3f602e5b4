-- ===== src/LinkedList/Copy.antt =====
-- kernel/lib/list.c: `list_copy` of a list that is not empty.
use beryllium.Base.{ℕ, zero, suc, ◌≡◌, ◌≢◌, refl, none, some, true, arith, ◌==◌, ne→==}
use beryllium.LinkedList.{Store, list_insert, copy_loop, list_copy, list_create}

copy_loop-none :
    (rounds : ℕ) (malloc : ℕ → ℕ) (node : ℕ) (s : Store)
    → node ≢ 0
    → copy_loop rounds malloc node s ≡ none
unfolding copy_loop
copy_loop-none zero malloc node s ne = refl
copy_loop-none (suc n) malloc node s ne =
    rw (ne→== node 0 ne)
      (copy_loop-none n malloc node (list_insert (malloc n) (s.nodes node).value s) ne)

-- `list_copy` of a list that is not empty never returns, whatever `malloc` gives it; of an empty one it
-- returns an empty list.
pub list_copy-none :
    (rounds : ℕ) (malloc : ℕ → ℕ) (original : Store)
    → (original.list.head ≢ 0 → list_copy rounds malloc original ≡ none)
      × (original.list.head ≡ 0
          → list_copy (suc rounds) malloc original ≡ some (record original { list = list_create }))
unfolding list_copy copy_loop
list_copy-none rounds malloc original = (
  λ ne. copy_loop-none rounds malloc original.list.head (record original { list = list_create }) ne,
  λ e. let empty : (original.list.head == 0) ≡ true = ground (arith, e) in rw empty refl,
)
