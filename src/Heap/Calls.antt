-- ===== src/Heap/Calls.antt =====
-- kernel/malloc.c: the calls of `sbrk` that `malloc` makes.
use beryllium.Base.{
  ℕ, zero, suc, ◌+◌, ◌-◌, ◌%◌, ◌^◌, ◌≤◌, ◌<◌, ◌≡◌, ◌≢◌, refl, Bool, true, false, arith, ltb, some,
  ne→==,
}
use beryllium.Heap.{Break, enlarge}

-- The calls of `sbrk` that make room for `need` bytes from `a` on: how many succeed, from which state to which, and
-- whether the room is enough then.
pub data Enlarges {B : Type 0} (k : Break B) (need a : ℕ) : ℕ → B → B → Bool → Type 0 where
  fits : (b : B) → need ≤ (k.current b + 2 ^ 32 - a) % 2 ^ 32 → Enlarges k need a 0 b b true
  fails :
      (b c : B)
      → (k.current b + 2 ^ 32 - a) % 2 ^ 32 < need
      → k.extend b ≡ some (c, 2 ^ 32 - 1)
      → Enlarges k need a 0 b c false
  more :
      {n : ℕ} {c : B} {enough : Bool} (b b' : B) (ptr : ℕ)
      → (k.current b + 2 ^ 32 - a) % 2 ^ 32 < need
      → k.extend b ≡ some (b', ptr)
      → ptr ≢ 2 ^ 32 - 1
      → Enlarges k need a n b' c enough
      → Enlarges k need a (suc n) b c enough

not_short : (n need : ℕ) → need ≤ n → ltb n need ≡ false
not_short n need h = ground (arith, h)

short_of : (n need : ℕ) → n < need → ltb n need ≡ true
short_of n need h = ground (arith, h)

module _ {B : Type 0} (k : Break B) where
  -- The loop makes these calls.
  pub enlarge-Enlarges :
      (rounds n need a : ℕ) (b c : B) (enough : Bool)
      → Enlarges k need a n b c enough
      → n < rounds
      → enlarge k rounds need a b ≡ some (c, enough)
  unfolding enlarge
  enlarge-Enlarges zero n need a b c enough calls lt = absurd (omega (arith, lt))
  enlarge-Enlarges (suc m) _ need a b c enough (fits _ h) lt =
      rw (not_short ((k.current b + 2 ^ 32 - a) % 2 ^ 32) need h) refl
  enlarge-Enlarges (suc m) _ need a b c enough (fails _ _ h e) lt =
      rw (short_of ((k.current b + 2 ^ 32 - a) % 2 ^ 32) need h, e) refl
  enlarge-Enlarges (suc m) (suc n) need a b c enough (more _ b' ptr h e ne calls) lt =
      rw (short_of ((k.current b + 2 ^ 32 - a) % 2 ^ 32) need h, e, ne→== ptr (2 ^ 32 - 1) ne)
        (enlarge-Enlarges m n need a b' c enough calls (omega (arith, lt)))
