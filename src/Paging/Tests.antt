-- ===== src/Paging/Tests.antt =====
-- kernel/arch/x86/paging.c: a directory with one table.
use beryllium.Base.{ℕ, ◌*◌, ◌/◌, ◌+◌, ◌%◌, ◌≤◌, ◌<◌, ◌≡◌, ◌⊎◌, none, some, arith}
use beryllium.Frames.{Page}
use beryllium.Paging.{Paging, zero_page, placement_kmalloc_ap, paging_get_page, page_at}
use beryllium.Paging.Placement.{placement_kmalloc_ap-aligned}
use beryllium.Paging.Tables.{paging_get_page-page_at}

placement_kmalloc_ap-aligned_example :
    let (r, next) = placement_kmalloc_ap 4096 1 0x100010 in
    (r % 0x1000 ≡ 0) × (0x100010 < r) × (r ≤ 0x100010 + 0x1000) × (next ≡ r + 4096)
placement_kmalloc_ap-aligned_example =
    placement_kmalloc_ap-aligned 0x100010 4096 (omega arith) (omega arith)

-- No table is there.
abbrev paging : Paging
paging = record {
  dir = record { tables = λ i. none; tables_physical = λ i. 0 };
  placement_address = 0x100010;
}

paging_get_page-page_at_example :
    (i : ℕ) × (j : ℕ) × (u : Paging) × (here : Page) × (i * 1024 + j ≡ 0x405000 / 0x1000)
    × (j < 1024)
    × (paging_get_page 0x405000 1 paging ≡ (some (i, j), u))
    × (page_at (i, j) u ≡ some here)
    × (((u ≡ paging) × (page_at (i, j) paging ≡ some here))
        ⊎ ((paging.dir.tables i ≡ none)
            × (here ≡ zero_page)
            × ((k l : ℕ)
                → (page_at (k, l) u ≡ page_at (k, l) paging)
                  ⊎ ((k ≡ i) × (page_at (k, l) u ≡ some zero_page)))))
    × (paging_get_page 0x405000 1 u ≡ (some (i, j), u))
paging_get_page-page_at_example = paging_get_page-page_at 0x405000 1 paging (omega arith)
