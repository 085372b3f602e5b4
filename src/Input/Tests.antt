-- ===== src/Input/Tests.antt =====
-- kernel/input.c: the theorem at a concrete sequence of calls.
use beryllium.Base.{◌≡◌, refl, some, List, [], ◌∷◌, arith}
use beryllium.Input.Fifo.{Op, add, get, image, serve, run, rendered, run_refines}

-- "a", NUL, "b", and three reads.
abbrev script : List Op
script = add 97 ∷ add 0 ∷ add 98 ∷ get ∷ get ∷ get ∷ []

served : serve script [] ≡ some ([], 97 ∷ 98 ∷ 0 ∷ [])
unfolding serve
served = refl

run_refines_example : run script (image []) ≡ rendered (serve script [])
run_refines_example = run_refines script [] tt (omega arith)
