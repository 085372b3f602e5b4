-- ===== src/Pages/Runs.antt =====
-- kernel/arch/x86/memory.c: the search for a run of free pages ends, and what it finds.
use native.Mathlib.Nat.{mod-lt}
use beryllium.Base.{
  ℕ, zero, suc, ◌+◌, ◌-◌, ◌/◌, ◌%◌, ◌^◌, ◌≤◌, ◌<◌, ◌≡◌, ◌≢◌, refl, sym, ap, ◌∙◌, inl, inr, true,
  false, Option, none, some, arith, ltb, ◌==◌, Bool-cases, Option-cases, eq_of_==, ltb→lt,
}
use beryllium.Frames.{Frames, test_frame}
use beryllium.Pages.{used_from, find_block}

ltb_not : (a b : ℕ) → ltb a b ≡ false → b ≤ a
ltb_not a b h = ground arith

ne_of_== : (a b : ℕ) → (a == b) ≡ false → a ≢ b
ne_of_== a b h = ground arith

-- The tests for the pages from `pos + j` on give 0. Page `pos + i` is tested by the bit of the address `pos + i / 32`:
-- the macro divides only the second summand.
abbrev pub AllFree : (n pos j : ℕ) → Frames → Type 0
AllFree n pos j f = (k : ℕ) → k < n → test_frame (pos + (j + k) / 0x20) f ≡ 0

used_from-AllFree : (n pos j : ℕ) (f : Frames) → used_from n pos j f ≡ none → AllFree n pos j f
unfolding used_from
used_from-AllFree zero pos j f e k h = absurd (omega (arith, h))
used_from-AllFree (suc n) pos j f e zero h =
    elim (Bool-cases (test_frame (pos + j / 0x20) f == 0)) [
      | inl g ↦
          ap (λ i. test_frame (pos + i / 0x20) f) (omega arith)
          ∙ eq_of_== (test_frame (pos + j / 0x20) f) 0 g
      | inr g ↦ absurd (cc (rw g at e))
    ]
used_from-AllFree (suc n) pos j f e (suc k) h =
    elim (Bool-cases (test_frame (pos + j / 0x20) f == 0)) [
      | inl g ↦
          ap (λ i. test_frame (pos + i / 0x20) f) (omega arith)
          ∙ used_from-AllFree n pos (j + 1) f (rw g at e) k (omega (arith, h))
      | inr g ↦ absurd (cc (rw g at e))
    ]

-- Where the loop stops early, the test is not 0.
used_from-used :
    (n pos j i : ℕ) (f : Frames)
    → used_from n pos j f ≡ some i
    → (i < j + n) × (test_frame (pos + i / 0x20) f ≢ 0)
unfolding used_from
used_from-used zero pos j i f e = absurd (cc e)
used_from-used (suc n) pos j i f e = elim (Bool-cases (test_frame (pos + j / 0x20) f == 0)) [
  | inl g ↦
      let (below, used) = used_from-used n pos (j + 1) i f (rw g at e) in
      (omega (arith, below), used)
  | inr g ↦
      let same : j ≡ i = cc (rw g at e) in
      (omega (arith, same), rw (sym same) (ne_of_== (test_frame (pos + j / 0x20) f) 0 g))
]

-- Where a round of the search starts.
abbrev pub start_of : (i lastpage : ℕ) → Frames → ℕ
start_of i lastpage f = (i + lastpage) % 2 ^ 32 % f.frame_amount

-- The start of round `i` refuses that of round `k`: the run from `i` does not fit behind its start, and `k` is one of
-- the `pages - 1` rounds from `i` on, or a test of the run from `i` is not 0, and `k` is not behind the page of that test.
pub data IsRefused (pages lastpage : ℕ) (f : Frames) (k : ℕ) : Type 0 where
  too_long :
      (i : ℕ)
      → i ≤ k
      → k < i + (pages - 1)
      → f.frame_amount < start_of i lastpage f + pages
      → IsRefused pages lastpage f k
  in_use :
      (i j : ℕ)
      → i ≤ k
      → k ≤ i + j
      → j < pages
      → start_of i lastpage f + pages ≤ f.frame_amount
      → test_frame (start_of i lastpage f + j / 0x20) f ≢ 0
      → IsRefused pages lastpage f k

-- The rounds from `i` up to `stop` are refused.
abbrev pub Refused : (i stop pages lastpage : ℕ) → Frames → Type 0
Refused i stop pages lastpage f = (k : ℕ) → i ≤ k → k < stop → IsRefused pages lastpage f k

-- What the search from `i` on may end with. Nothing, with every round refused; or the start of a round, where every
-- round before is refused, and a run fits behind it of which no test finds a frame in use.
unfoldable pub IsRun : (i pages lastpage : ℕ) → Frames → Option ℕ → Type 0
IsRun i pages lastpage f none = Refused i f.frame_amount pages lastpage f
IsRun i pages lastpage f (some block) =
    (stop : ℕ) × (i ≤ stop)
    × (stop < f.frame_amount)
    × Refused i stop pages lastpage f
    × (block ≡ start_of stop lastpage f)
    × (block + pages ≤ f.frame_amount)
    × AllFree pages block 0 f

-- A run that does not fit behind its start has two pages at least.
two_pages :
    {i : ℕ}
    → (n : ℕ) (f : Frames) (pages : ℕ) → i < f.frame_amount
    → ltb f.frame_amount (n % 2 ^ 32 % f.frame_amount + pages) ≡ true
    → 2 ≤ pages
two_pages n f pages below g =
    let lt = mod-lt (n % 2 ^ 32) {m = f.frame_amount} (omega (arith, below)) in
    omega (arith, lt, ltb→lt f.frame_amount (n % 2 ^ 32 % f.frame_amount + pages) g)

Refused-append :
    (i next stop pages lastpage : ℕ) (f : Frames)
    → Refused i next pages lastpage f
    → Refused next stop pages lastpage f
    → Refused i stop pages lastpage f
Refused-append i next stop pages lastpage f first others k lo hi = elim (Bool-cases (ltb k next)) [
  | inl e ↦ first k lo (ltb→lt k next e)
  | inr e ↦ others k (ltb_not k next e) hi
]

IsRun-append :
    (i next pages lastpage : ℕ) (f : Frames) (r : Option ℕ)
    → i ≤ next
    → Refused i next pages lastpage f
    → IsRun next pages lastpage f r
    → IsRun i pages lastpage f r
unfolding IsRun
IsRun-append i next pages lastpage f none le first others =
    Refused-append i next f.frame_amount pages lastpage f first others
IsRun-append i next pages lastpage f (some block) le first
      (stop, lo, hi, others, start, fits, free) =
    (
      stop,
      omega (arith, le, lo),
      hi,
      Refused-append i next stop pages lastpage f first others,
      start,
      fits,
      free,
    )

-- With enough fuel the search from any round on ends.
find_block_from :
    (fuel i pages lastpage : ℕ) (f : Frames)
    → 0 < pages
    → 0 < fuel
    → f.frame_amount < i + fuel
    → (r : Option ℕ) × (find_block fuel i pages lastpage f ≡ some r) × IsRun i pages lastpage f r
unfolding find_block IsRun
find_block_from zero i pages lastpage f some_page more h = absurd (omega (arith, more))
find_block_from (suc n) i pages lastpage f some_page more h =
    elim (Bool-cases (ltb i f.frame_amount)) [
      | inr e ↦ (
        none,
        rw (find_block, e) refl,
        λ k lo hi. absurd (omega (arith, lo, hi, ltb_not i f.frame_amount e)),
      )
      | inl e ↦
          let below = ltb→lt i f.frame_amount e in
          let pos = start_of i lastpage f in
          elim (Bool-cases (ltb f.frame_amount (pos + pages))) [
            | inl g ↦
                let two = two_pages (i + lastpage) f pages below g in
                let (r, found, run) =
                  find_block_from n (i + (pages - 1)) pages lastpage f some_page
                    (omega (arith, below, h)) (omega (arith, h, two)) in
                (
                  r,
                  rw (find_block, e, g) found,
                  IsRun-append i (i + (pages - 1)) pages lastpage f r (omega arith)
                      (λ k lo hi. too_long i lo hi (ltb→lt f.frame_amount (pos + pages) g)) run,
                )
            | inr g ↦
                let fits = ltb_not f.frame_amount (pos + pages) g in
                elim (Option-cases (used_from pages pos 0 f)) [
                  | inl u ↦ (
                    some pos,
                    rw (find_block, e, g, u) refl,
                    (
                      i,
                      omega arith,
                      below,
                      λ k lo hi. absurd (omega (arith, lo, hi)),
                      refl,
                      fits,
                      used_from-AllFree pages pos 0 f u,
                    ),
                  )
                  | inr (j, u) ↦
                      let (r, found, run) =
                        find_block_from n (i + j + 1) pages lastpage f some_page
                          (omega (arith, below, h)) (omega (arith, h)) in
                      let (inside, used) = used_from-used pages pos 0 j f u in
                      (
                        r,
                        rw (find_block, e, g, u) found,
                        IsRun-append i (i + j + 1) pages lastpage f r (omega arith)
                            (λ k lo hi.
                              in_use i j lo (omega (arith, hi)) (omega (arith, inside)) fits used)
                            run,
                      )
                ]
          ]
    ]

pub find_block-IsRun :
    (pages lastpage : ℕ) (f : Frames)
    → 0 < pages
    → (r : Option ℕ) × (find_block (suc f.frame_amount) 0 pages lastpage f ≡ some r)
      × IsRun 0 pages lastpage f r
find_block-IsRun pages lastpage f some_page =
    find_block_from (suc f.frame_amount) 0 pages lastpage f some_page (omega arith) (omega arith)
