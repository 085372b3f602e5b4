-- ===== src/Pages/Break.antt =====
-- kernel/arch/x86/memory.c: what `sbrk` returns.
use beryllium.Base.{
  ℕ, suc, ◌+◌, ◌-◌, ◌/◌, ◌≤◌, ◌<◌, ◌≡◌, ◌≢◌, refl, sym, ap, ◌∙◌, inl, inr, false, Option, none,
  some, arith, ltb, ◌==◌, Bool-cases, Option-cases, ne→==,
}
use beryllium.Lock.{mutex_lock}
use beryllium.Pages.{
  Memory, find_block, take_pages, take_run, take_found, memory_mult_alloc_pages, memallocp,
  actual_amount, sbrk,
}
use beryllium.Pages.Runs.{AllFree, Refused, start_of, IsRun, find_block-IsRun}

-- What an allocation of some pages has done when it returns a page: it is the first start that is not refused, the run
-- is within the frames, no test for it found a frame in use, and the last page is behind it.
pub record IsTaken (pages : ℕ) (m m' : Memory) (ptr : ℕ) : Type 0 where
  pub within : ptr + pages ≤ m.frames.frame_amount
  pub free : AllFree pages ptr 0 m.frames
  pub first :
      (stop : ℕ) × (stop < m.frames.frame_amount)
      × Refused 0 stop pages m.mem_lastpage m.frames
      × (ptr ≡ start_of stop m.mem_lastpage m.frames)
  pub last : m'.mem_lastpage ≡ ptr + pages

ne_of_== : (a b : ℕ) → (a == b) ≡ false → a ≢ b
ne_of_== a b h = ground arith

some_pair :
    {a b : Memory} {c d : ℕ}
    → (Path (Option (Memory × ℕ)) (some (a, c)) (some (b, d)))
    → (a ≡ b) × (c ≡ d)
some_pair {a} {b} {c} {d} e =
    let both : Path (Memory × ℕ) (a, c) (b, d) = cc e in (ap (λ q. q.0) both, ap (λ q. q.1) both)

searched :
    (pages : ℕ) (m m' : Memory) (ptr : ℕ) (r : Option ℕ)
    → IsRun 0 pages m.mem_lastpage m.frames r
    → ptr ≢ 0
    → take_found pages r m ≡ some (m', ptr)
    → IsTaken pages m m' ptr
unfolding IsRun take_found take_run
searched pages m m' ptr none run there e = absurd (there (sym (some_pair e).1))
searched pages m m' ptr (some block) (stop, lo, hi, others, first, within, free) there e =
    elim (Option-cases (take_pages pages block 0 (m.paging, m.frames))) [
      | inl f ↦ absurd (cc (rw f at e))
      | inr (s, f) ↦
          let (same_m, same) = some_pair (rw f at e) in
          record {
            within = rw same at within;
            free = rw same at free;
            first = (stop, hi, others, sym same ∙ first);
            last = sym (ap (λ n. n.mem_lastpage) same_m) ∙ ap (λ b. b + pages) same;
          }
    ]

taken :
    (pages : ℕ) (m m' : Memory) (ptr : ℕ) (r : Option ℕ)
    → find_block (suc m.frames.frame_amount) 0 pages m.mem_lastpage m.frames ≡ some r
    → IsRun 0 pages m.mem_lastpage m.frames r
    → ptr ≢ 0
    → memory_mult_alloc_pages pages m ≡ some (m', ptr)
    → IsTaken pages m m' ptr
unfolding memory_mult_alloc_pages IsRun
taken pages m m' ptr r found run there e =
    elim (Bool-cases (ltb m.frames.frame_amount m.mem_pagefree)) [
      | inl h ↦ absurd (there (sym (some_pair (rw h at e)).1))
      | inr h ↦ searched pages m m' ptr r run there (rw (h, found) at e)
    ]

memallocp-IsTaken :
    (rounds n : ℕ) (m m' : Memory) (ptr : ℕ)
    → memallocp rounds (suc n) m ≡ some (m', ptr)
    → (ptr ≢ 0) × IsTaken (suc n) m m' ptr
unfolding memallocp
memallocp-IsTaken rounds n m m' ptr e = elim (Option-cases (mutex_lock rounds m.mmac_lock)) [
  | inl f ↦ absurd (cc (rw f at e))
  | inr (locked, f) ↦ elim (Option-cases (memory_mult_alloc_pages (suc n) m)) [
    | inl g ↦ absurd (cc (rw (f, g) at e))
    | inr ((u, p), g) ↦ elim (Bool-cases (p == 0)) [
      | inl h ↦ absurd (cc (rw (f, g, h) at e))
      | inr h ↦
          let (same_m, same) = some_pair (rw (f, g, h) at e) in
          let there : ptr ≢ 0 = rw same at (ne_of_== p 0 h) in
          let (r, found, run) = find_block-IsRun (suc n) m.mem_lastpage m.frames (omega arith) in
          (there, taken (suc n) m m' ptr r found run there (g ∙ ap some (rw (same_m, same) refl)))
    ]
  ]
]

actual_amount-suc : (amount : ℕ) → (n : ℕ) × (actual_amount amount ≡ suc n)
unfolding actual_amount
actual_amount-suc amount = elim (Bool-cases (amount / 0x1000 == 0)) [
  | inl e ↦ (0, rw e refl)
  | inr e ↦ (amount / 0x1000 - 1, rw e (omega (arith, ne_of_== (amount / 0x1000) 0 e)))
]

-- When `sbrk` of an amount that is not 0 returns, the result is not NULL: it is the number of the first of a run
-- of pages within the frames, which begins at the first start that the search does not refuse and of which no test
-- found a frame in use. The run has as many pages as the amount rounded down to pages, one at least, and `sbrk(0)` returns the number of the page
-- behind it.
pub sbrk-IsTaken :
    (rounds amount : ℕ) (m m' : Memory) (ptr : ℕ)
    → 0 < amount
    → sbrk rounds amount m ≡ some (m', ptr)
    → (ptr ≢ 0)
      × IsTaken (actual_amount amount) m m' ptr
      × (sbrk rounds 0 m' ≡ some (m', ptr + actual_amount amount))
unfolding sbrk
sbrk-IsTaken rounds amount m m' ptr h e =
    let (n, pages) = actual_amount-suc amount in
    let called : memallocp rounds (actual_amount amount) m ≡ some (m', ptr) =
      rw (ne→== amount 0 (λ z. absurd (omega (arith, h, z)))) at e in
    let (there, taken_run) = memallocp-IsTaken rounds n m m' ptr (rw pages at called) in
    let run : IsTaken (actual_amount amount) m m' ptr = rw pages taken_run in
    (there, run, ap (λ b. some (m', b)) run.last)
