-- ===== src/Paging.antt =====
-- kernel/arch/x86/paging.c and kernel/arch/x86/lib/placement_malloc.c: the page tables, and the addresses that they
-- are placed at. The page directory has an entry for each of the 1024 tables; addresses have 32 bits.
pub mod Placement
pub mod Tables
mod Tests
use Prim.Native.Nat.{bit_or}
use beryllium.Base.{
  ℕ, zero, suc, ◌+◌, ◌-◌, ◌*◌, ◌/◌, ◌%◌, ◌^◌, Bool, true, false, not, ◌&&◌, Option, none, some,
  ◌>>=◌, ltb, ◌==◌, if◌then◌else◌,
}
use beryllium.Frames.{Page, Frames, alloc_frame}

-- `placement_kmalloc`: the address, and `placement_address` afterwards.
unfoldable pub placement_kmalloc : (sz : ℕ) → (placement_address : ℕ) → ℕ × ℕ
placement_kmalloc sz placement_address = (placement_address, (placement_address + sz) % 2 ^ 32)

-- The test and the two assignments before the address is taken.
unfoldable pub aligned : (align : ℕ) → (placement_address : ℕ) → ℕ
aligned align placement_address =
    let page = placement_address / 0x1000 * 0x1000 in
    if (align == 1) && not (page == 0) then (page + 0x1000) % 2 ^ 32 else placement_address

-- `placement_kmalloc_a`, and `placement_kmalloc_ap`, whose `*phys` is the address that it returns.
unfoldable pub placement_kmalloc_ap : (sz align : ℕ) → (placement_address : ℕ) → ℕ × ℕ
placement_kmalloc_ap sz align placement_address =
    placement_kmalloc sz (aligned align placement_address)

-- `page_table_t`
abbrev pub PageTable : Type 0
PageTable = ℕ → Page

-- `page_directory_t`, with the tables where they are and none for NULL.
pub record Directory : Type 0 where
  pub tables : ℕ → Option PageTable
  pub tables_physical : ℕ → ℕ

-- A directory, and `placement_address`.
pub record Paging : Type 0 where
  pub dir : Directory
  pub placement_address : ℕ

abbrev pub zero_page : Page
zero_page = record { present = 0; rw = 0; user = 0; accessed = 0; dirty = 0; unused = 0; frame = 0 }

-- A pointer to an entry: the table and the index in it.
abbrev pub Entry : Type 0
Entry = ℕ × ℕ

abbrev pub entry_of : (address : ℕ) → Entry
entry_of address = (address / 0x1000 / 1024, address / 0x1000 % 1024)

-- A new table of cleared pages, of 4 bytes each; its physical address gets the bits of a present, writable
-- table for users.
unfoldable pub make_table : (table_index : ℕ) → Paging → Paging
make_table table_index s =
    let (temp, next) = placement_kmalloc_ap 4096 1 s.placement_address in
    record {
      dir = record {
        tables = λ i. if i == table_index then some (λ j. zero_page) else s.dir.tables i;
        tables_physical =
            λ i. if i == table_index then bit_or temp 0x7 else s.dir.tables_physical i;
      };
      placement_address = next;
    }

-- `none` is NULL.
unfoldable pub paging_get_page : (address make : ℕ) → Paging → Option Entry × Paging
paging_get_page address make s =
    let made = make_table (address / 0x1000 / 1024) s in
    elim (s.dir.tables (address / 0x1000 / 1024)) [
      | some table ↦ (some (entry_of address), s)
      | none ↦ if make == 0 then (none, s) else (some (entry_of address), made)
    ]

-- The entry at a pointer, and a write to it.
unfoldable pub page_at : Entry → Paging → Option Page
page_at (i, j) s = elim (s.dir.tables i) [ none ↦ none | some table ↦ some (table j) ]

unfoldable pub set_entry : (j : ℕ) → Page → PageTable → PageTable
set_entry j page table k = if k == j then page else table k

unfoldable pub set_page : Entry → Page → Paging → Paging
set_page (i, j) page s = record s {
  dir = record s.dir {
    tables = λ k.
        if k == i
        then elim (s.dir.tables i) [ none ↦ none | some table ↦ some (set_entry j page table) ]
        else s.dir.tables k;
  };
}

-- `pa_alloc_frame(paging_get_page(address, 1, kernel_directory), 0, 0)`
unfoldable pub map_page : (address : ℕ) → Paging × Frames → Option (Paging × Frames)
map_page address (s, f) =
    let (entry, made) = paging_get_page address 1 s in
    do
      e ← entry
      page ← page_at e made
      (changed, g) ← alloc_frame 0 0 page f
      some (set_page e changed made, g)
