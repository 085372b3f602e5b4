-- ===== src/Regions/Append.antt =====
-- kernel/arch/x86/mman.c: `memsig` puts the region behind the others.
use beryllium.Base.{
  ℕ, zero, suc, ◌+◌, ◌≤◌, ◌<◌, ◌≡◌, ◌≢◌, refl, ap, true, false, List, [], ◌∷◌, ◌++◌, some, arith,
  length, ◌==◌, if◌then◌else◌, ne→==, ◌%◌, ◌^◌, ◌&&◌,
}
use beryllium.Links.{
  Linked, Fresh, Apart, last_of, last_of-Fresh, Apart-append, Linked-outside, Linked-append,
}
use beryllium.Regions.{Region, Manager, write, link_behind, link_last, fill, new_region, memsig}

abbrev pub next_of : (ℕ → Region) → ℕ → ℕ
next_of regions a = (regions a).next

-- The regions of the manager, in the order of their links.
pub record IsRegions (s : Manager) (rs : List ℕ) : Type 0 where
  pub linked : Linked (next_of s.regions) s.mman_region rs
  pub apart : Apart rs

link_last-link_behind :
    (rounds parent region : ℕ) (regions : ℕ → Region) (bs : List ℕ)
    → length bs < rounds
    → Linked (next_of regions) parent (parent ∷ bs)
    → link_last rounds parent region regions ≡ some (link_behind (last_of parent bs) region regions)
unfolding link_last
link_last-link_behind zero parent region regions bs lt linked = absurd (omega (arith, lt))
link_last-link_behind (suc n) parent region regions [] lt (e, ne, end) =
    let last : ((regions parent).next == 0) ≡ true = ground (arith, end) in
    rw (ne→== parent 0 ne, last) refl
link_last-link_behind (suc n) parent region regions (b ∷ bs) lt (e, ne, (step, there, rest)) =
    let more : ((regions parent).next == 0) ≡ false = ground (arith, step, there) in
    rw (ne→== parent 0 ne, more, step)
      (link_last-link_behind n b region regions bs (omega (arith, lt)) (refl, there, rest))

module _ (regions : ℕ → Region) (last region start size kind flags : ℕ) (new : region ≢ last) where
  abbrev after : ℕ → Region
  after = link_behind last region (fill region start size kind flags regions)

  join-last : (after last).next ≡ region
  unfolding write fill
  join-last = ground (arith, new)

  join-region : after region ≡ record {
    prev = last;
    next = 0;
    used = 1;
    kind = kind;
    flags = flags;
    start = start;
    size = size;
  }
  unfolding write fill
  join-region = ground (arith, new)

  join-next : (x : ℕ) → x ≢ region → x ≢ last → (after x).next ≡ (regions x).next
  unfolding write fill
  join-next x ne far = ground (arith, new, ne, far)

  join-place :
      (x : ℕ)
      → x ≢ region
      → ((after x).start ≡ (regions x).start) × ((after x).size ≡ (regions x).size)
  unfolding write fill
  join-place x ne = (ground (arith, new, ne), ground (arith, new, ne))

fill-next :
    (region start size kind flags : ℕ) (regions : ℕ → Region) (x : ℕ)
    → (fill region start size kind flags regions x).next ≡ (regions x).next
unfolding fill write
fill-next region start size kind flags regions x = ground arith

-- `memsig` of a region that is not empty, when the manager is running and has one region at least,
-- returns 0 with the new region behind the others; no other region changes its place or its size.
pub memsig-append :
    (prealloc rounds allocated start size kind flags region : ℕ) (s : Manager) (rs : List ℕ)
    → IsRegions s rs
    → 0 < length rs
    → length rs ≤ rounds
    → size ≢ 0
    → s.status ≢ 0
    → new_region prealloc allocated s ≡ some region
    → region ≢ 0
    → Fresh region rs
    → (s' : Manager) × (memsig prealloc rounds allocated start size kind flags s ≡ some (s', 0))
      × IsRegions s' (rs ++ (region ∷ []))
      × ((s'.regions region).start ≡ start)
      × ((s'.regions region).size ≡ size)
      × ((s'.regions region).kind ≡ kind)
      × ((x : ℕ)
          → x ≢ region
          → ((s'.regions x).start ≡ (s.regions x).start)
            × ((s'.regions x).size ≡ (s.regions x).size))
unfolding memsig
memsig-append prealloc rounds allocated start size kind flags region s [] ok some_there enough full
      on got filled fresh =
    absurd (omega (arith, some_there))
memsig-append prealloc rounds allocated start size kind flags region s (q ∷ rs) ok some_there enough
      full on got filled fresh =
    let e = ok.linked.0 in
    let before = fill region start size kind flags s.regions in
    let last = last_of q rs in
    let new = last_of-Fresh region q rs fresh in
    let same = fill-next region start size kind flags s.regions in
    let linked : Linked (next_of s.regions) q (q ∷ rs) = (refl, ok.linked.1, ok.linked.2) in
    let kept : Linked (next_of before) q (q ∷ rs) =
      Linked-outside (next_of s.regions) (next_of before) region q (q ∷ rs) (λ x ne. same x) fresh
        linked in
    let found = link_last-link_behind rounds q region before rs enough kept in
    let whole = join-region s.regions last region start size kind flags new in
    (
      record s {
        regions = link_behind last region before;
        prealloc_ptr = if s.status == 1 then (s.prealloc_ptr + 1) % 2 ^ 8 else s.prealloc_ptr;
        status = if (kind == 1) && (s.status == 1) then 2 else s.status;
      },
      rw (ne→== size 0 full, ne→== s.status 0 on, got, e, found) refl,
      record {
        linked = rw e (
            Linked-append (next_of s.regions) (next_of (link_behind last region before)) region q rs
              filled (join-last s.regions last region start size kind flags new)
              (ap (λ r. r.next) whole) (join-next s.regions last region start size kind flags new)
              ok.apart fresh linked);
        apart = Apart-append region (q ∷ rs) ok.apart fresh;
      },
      ap (λ r. r.start) whole,
      ap (λ r. r.size) whole,
      ap (λ r. r.kind) whole,
      join-place s.regions last region start size kind flags new,
    )
