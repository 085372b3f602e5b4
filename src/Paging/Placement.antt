-- ===== src/Paging/Placement.antt =====
-- kernel/arch/x86/lib/placement_malloc.c: where aligned memory is placed.
use beryllium.Base.{ℕ, ◌+◌, ◌*◌, ◌/◌, ◌%◌, ◌^◌, ◌≤◌, ◌<◌, ◌≡◌, arith, ne→==}
use beryllium.Paging.{placement_kmalloc, aligned, placement_kmalloc_ap}

aligned-page :
    (a : ℕ) → 0x1000 ≤ a → a + 0x1000 < 2 ^ 32 → aligned 1 a ≡ a / 0x1000 * 0x1000 + 0x1000
unfolding aligned
aligned-page a above below =
    rw (ne→== (a / 0x1000 * 0x1000) 0 (λ e. absurd (omega (arith, e, above))))
      (omega (arith, below))

-- From the second page of memory on, and as long as it does not go round, `placement_kmalloc_ap` with `align` 1
-- returns an address at the start of a page, behind all that has been placed and at most a page away from
-- it, and the next placement begins behind the memory that it hands out.
pub placement_kmalloc_ap-aligned :
    (a sz : ℕ)
    → 0x1000 ≤ a
    → a + 0x1000 + sz < 2 ^ 32
    → let (r, next) = placement_kmalloc_ap sz 1 a in
      (r % 0x1000 ≡ 0) × (a < r) × (r ≤ a + 0x1000) × (next ≡ r + sz)
unfolding placement_kmalloc_ap placement_kmalloc
placement_kmalloc_ap-aligned a sz above below =
    let e = aligned-page a above (omega (arith, below)) in
    (omega (arith, e), omega (arith, e), omega (arith, e), omega (arith, e, below))
