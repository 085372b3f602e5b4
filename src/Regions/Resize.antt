-- ===== src/Regions/Resize.antt =====
-- kernel/arch/x86/mman.c: `memresize` and the regions above.
use beryllium.Base.{
  ℕ, zero, suc, ◌+◌, ◌%◌, ◌^◌, ◌≤◌, ◌<◌, ◌≡◌, refl, ◌⊎◌, inl, inr, Bool, true, false, not, ◌&&◌,
  List, [], ◌∷◌, some, arith, length, ltb, ◌==◌, ne→==, Bool-cases,
}
use beryllium.Links.{Linked}
use beryllium.Regions.{Region, Manager, write, check, memresize}
use beryllium.Regions.Append.{next_of, IsRegions}

-- The regions of the list that begin above `region` begin at `new_end` or behind.
abbrev pub IsClear : (regions : ℕ → Region) → (region new_end : ℕ) → List ℕ → Type 0
IsClear regions region new_end [] = Unit {0}
IsClear regions region new_end (b ∷ bs) =
    ((regions region).start < (regions b).start → new_end ≤ (regions b).start)
    × IsClear regions region new_end bs

module _ (regions : ℕ → Region) (region new_end : ℕ) where
  abbrev is_met : ℕ → Bool
  is_met b =
      not (b == region)
      && (ltb (regions region).start (regions b).start && ltb (regions b).start new_end)

  clear_lem :
      (b : ℕ)
      → is_met b ≡ false
      → (regions region).start < (regions b).start
      → new_end ≤ (regions b).start
  clear_lem b e lt = ground (arith, e, lt)

  check-IsClear :
      (rounds parent : ℕ) (bs : List ℕ)
      → length bs < rounds
      → Linked (next_of regions) parent (parent ∷ bs)
      → (check rounds parent region new_end regions ≡ some 1)
        ⊎ ((check rounds parent region new_end regions ≡ some 0)
            × IsClear regions region new_end (parent ∷ bs))
  unfolding check
  check-IsClear zero parent bs lt linked = absurd (omega (arith, lt))
  check-IsClear (suc n) parent [] lt (e, ne, end) = elim (Bool-cases (is_met parent)) [
    | inl met ↦ inl (rw (ne→== parent 0 ne, met) refl)
    | inr clear ↦
        let last : ((regions parent).next == 0) ≡ true = ground (arith, end) in
        inr (rw (ne→== parent 0 ne, clear, last) refl, (clear_lem parent clear, tt))
  ]
  check-IsClear (suc n) parent (b ∷ bs) lt (e, ne, (step, there, rest)) =
      elim (Bool-cases (is_met parent)) [
        | inl met ↦ inl (rw (ne→== parent 0 ne, met) refl)
        | inr clear ↦
            let more : ((regions parent).next == 0) ≡ false = ground (arith, step, there) in
            elim (check-IsClear n b bs (omega (arith, lt)) (refl, there, rest)) [
              | inl met ↦ inl (rw (ne→== parent 0 ne, clear, more, step) met)
              | inr (free, all) ↦
                  inr
                    (rw (ne→== parent 0 ne, clear, more, step) free, (clear_lem parent clear, all))
            ]
      ]

-- `memresize` returns within as many rounds as there are regions. Either it returns 1 and changes nothing,
-- or it returns 0, the region has the new size, and no region that begins above it begins below its
-- new end, as 32 bits have that end.
pub memresize-IsClear :
    (rounds region size : ℕ) (s : Manager) (rs : List ℕ)
    → IsRegions s rs
    → 0 < length rs
    → length rs ≤ rounds
    → (memresize rounds region size s ≡ some (s, 1))
      ⊎ ((memresize rounds region size s
            ≡ some (
              record s {
                regions = write region (record (s.regions region) { size = size }) s.regions;
              },
              0,
            ))
          × IsClear s.regions region ((size + (s.regions region).start) % 2 ^ 32) rs)
unfolding memresize
memresize-IsClear rounds region size s [] ok some_there enough = absurd (omega (arith, some_there))
memresize-IsClear rounds region size s (q ∷ rs) ok some_there enough =
    let e = ok.linked.0 in
    let new_end = (size + (s.regions region).start) % 2 ^ 32 in
    elim (check-IsClear s.regions region new_end rounds q rs enough
      (refl, ok.linked.1, ok.linked.2)) [
        | inl met ↦ inl (rw (e, met) refl)
        | inr (free, all) ↦ inr (rw (e, free) refl, all)
      ]
