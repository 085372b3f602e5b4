-- ===== src/Paging/Tables.antt =====
-- kernel/arch/x86/paging.c: the entries of the page tables.
use beryllium.Base.{
  ℕ, ◌+◌, ◌*◌, ◌<◌, ap, ◌/◌, ◌%◌, ◌≡◌, ◌≢◌, refl, sym, ◌∙◌, ◌⊎◌, inl, inr, true, false, none, some,
  arith, ◌==◌, ne→==, Option-cases, Bool-cases, eq_of_==, ==_iff,
}
use beryllium.Frames.{Page, Frames, alloc_frame}
use beryllium.Paging.{
  PageTable, Paging, zero_page, entry_of, make_table, paging_get_page, page_at, set_entry, set_page,
  map_page,
}

self_eq : (n : ℕ) → (n == n) ≡ true
self_eq n = ground arith

page_at-table :
    (i j : ℕ) (s : Paging) (table : PageTable)
    → s.dir.tables i ≡ some table
    → page_at (i, j) s ≡ some (table j)
unfolding page_at
page_at-table i j s table e = rw (page_at, e) refl

page_at-none : (i j : ℕ) (s : Paging) → s.dir.tables i ≡ none → page_at (i, j) s ≡ none
unfolding page_at
page_at-none i j s e = rw (page_at, e) refl

tables-make_table : (i : ℕ) (s : Paging) → (make_table i s).dir.tables i ≡ some (λ j. zero_page)
unfolding make_table
tables-make_table i s = rw (self_eq i) refl

paging_get_page-table :
    (address make : ℕ) (s : Paging) (table : PageTable)
    → s.dir.tables (address / 0x1000 / 1024) ≡ some table
    → paging_get_page address make s ≡ (some (entry_of address), s)
unfolding paging_get_page
paging_get_page-table address make s table e = rw (paging_get_page, e) refl

tables-make_table_ne :
    (i j : ℕ) (s : Paging) → (j == i) ≡ false → (make_table i s).dir.tables j ≡ s.dir.tables j
unfolding make_table
tables-make_table_ne i j s h = rw h refl

page_at-tables :
    (j k : ℕ) (s u : Paging) → u.dir.tables j ≡ s.dir.tables j → page_at (j, k) u ≡ page_at (j, k) s
unfolding page_at
page_at-tables j k s u e = rw (page_at, e) refl

page_at-make_table :
    (i j k : ℕ) (s : Paging) (page : Page)
    → s.dir.tables i ≡ none
    → page_at (j, k) s ≡ some page
    → page_at (j, k) (make_table i s) ≡ some page
unfolding page_at make_table
page_at-make_table i j k s page e at = elim (Bool-cases (j == i)) [
  | inl same ↦
      let gone : page_at (j, k) s ≡ none = rw (eq_of_== j i same) (page_at-none i k s e) in
      absurd (cc (gone, at))
  | inr other ↦ page_at-tables j k s (make_table i s) (tables-make_table_ne i j s other) ∙ at
]

-- The entry for an address, beside a page that is in a table.
paging_get_page-entry_of :
    (address make j k : ℕ) (s : Paging) (page : Page)
    → make ≢ 0
    → page_at (j, k) s ≡ some page
    → (u : Paging) × (here : Page) × (paging_get_page address make s ≡ (some (entry_of address), u))
      × (page_at (entry_of address) u ≡ some here)
      × ((page_at (entry_of address) s ≡ some here) ⊎ (here ≡ zero_page))
      × (page_at (j, k) u ≡ some page)
      × (paging_get_page address make u ≡ (some (entry_of address), u))
unfolding paging_get_page
paging_get_page-entry_of address make j k s page ne at =
    let i = address / 0x1000 / 1024 in
    let asked = ne→== make 0 ne in
    elim (Option-cases (s.dir.tables i)) [
      | inl e ↦ (
        make_table i s,
        zero_page,
        rw (paging_get_page, e, asked) refl,
        page_at-table i _ (make_table i s) (λ n. zero_page) (tables-make_table i s),
        inr refl,
        page_at-make_table i j k s page e at,
        paging_get_page-table address make (make_table i s) (λ n. zero_page)
            (tables-make_table i s),
      )
      | inr (table, e) ↦ (
        s,
        table (address / 0x1000 % 1024),
        paging_get_page-table address make s table e,
        page_at-table i _ s table e,
        inl (page_at-table i _ s table e),
        at,
        paging_get_page-table address make s table e,
      )
    ]

-- The pages of a directory that has got a table, and those of the directory before.
kept_or_cleared :
    (i k l : ℕ) (s : Paging)
    → s.dir.tables i ≡ none
    → (page_at (k, l) (make_table i s) ≡ page_at (k, l) s)
      ⊎ ((k ≡ i) × (page_at (k, l) (make_table i s) ≡ some zero_page))
kept_or_cleared i k l s e = elim (Bool-cases (k == i)) [
  | inl same ↦
      let here : page_at (i, l) (make_table i s) ≡ some zero_page =
        page_at-table i l (make_table i s) (λ n. zero_page) (tables-make_table i s) in
      inr (eq_of_== k i same, ap (λ n. page_at (n, l) (make_table i s)) (eq_of_== k i same) ∙ here)
  | inr other ↦ inl (page_at-tables k l s (make_table i s) (tables-make_table_ne i k s other))
]

-- With `make`, `paging_get_page` returns entry `j` of table `i` for an address in page `i * 1024 + j`. The entry is in
-- a table afterwards. If table `i` was there, nothing has changed; if not, its entries are in a table now and are
-- cleared, and those of the other tables are as before. A second call returns the same and changes nothing.
pub paging_get_page-page_at :
    (address make : ℕ) (s : Paging)
    → make ≢ 0
    → (i : ℕ) × (j : ℕ) × (u : Paging) × (here : Page) × (i * 1024 + j ≡ address / 0x1000)
      × (j < 1024)
      × (paging_get_page address make s ≡ (some (i, j), u))
      × (page_at (i, j) u ≡ some here)
      × (((u ≡ s) × (page_at (i, j) s ≡ some here))
          ⊎ ((s.dir.tables i ≡ none)
              × (here ≡ zero_page)
              × ((k l : ℕ)
                  → (page_at (k, l) u ≡ page_at (k, l) s)
                    ⊎ ((k ≡ i) × (page_at (k, l) u ≡ some zero_page)))))
      × (paging_get_page address make u ≡ (some (i, j), u))
unfolding paging_get_page
paging_get_page-page_at address make s ne =
    let i = address / 0x1000 / 1024 in
    let j = address / 0x1000 % 1024 in
    let asked = ne→== make 0 ne in
    elim (Option-cases (s.dir.tables i)) [
      | inl e ↦ (
        i,
        j,
        make_table i s,
        zero_page,
        omega arith,
        omega arith,
        rw (paging_get_page, e, asked) refl,
        page_at-table i j (make_table i s) (λ n. zero_page) (tables-make_table i s),
        inr (e, refl, λ k l. kept_or_cleared i k l s e),
        paging_get_page-table address make (make_table i s) (λ n. zero_page)
            (tables-make_table i s),
      )
      | inr (table, e) ↦ (
        i,
        j,
        s,
        table j,
        omega arith,
        omega arith,
        paging_get_page-table address make s table e,
        page_at-table i j s table e,
        inl (refl, page_at-table i j s table e),
        paging_get_page-table address make s table e,
      )
    ]

page_at-set_page :
    (i j : ℕ) (page old : Page) (s : Paging)
    → page_at (i, j) s ≡ some old
    → page_at (i, j) (set_page (i, j) page s) ≡ some page
unfolding page_at set_page set_entry
page_at-set_page i j page old s at = elim (Option-cases (s.dir.tables i)) [
  | inl e ↦ absurd (cc (page_at-none i j s e, at))
  | inr (table, e) ↦ rw (page_at, self_eq i, e, self_eq j) refl
]

page_at-set_page_ne :
    (i j k l : ℕ) (page : Page) (s : Paging)
    → (i ≢ k) ⊎ (j ≢ l)
    → page_at (k, l) (set_page (i, j) page s) ≡ page_at (k, l) s
unfolding page_at set_page set_entry
page_at-set_page_ne i j k l page s ne = elim (Bool-cases (k == i)) [
  | inr other ↦ rw (page_at, other) refl
  | inl same ↦
      let e = eq_of_== k i same in
      elim (Option-cases (s.dir.tables i)) [
        | inl f ↦ rw (e, page_at, self_eq i, f) refl
        | inr (table, f) ↦
            let apart : l ≢ j = elim ne [ inl g ↦ (λ h. g (sym e)) | inr g ↦ (λ h. g (sym h)) ] in
            rw (e, page_at, self_eq i, f, ne→== l j apart) refl
      ]
]

entry_apart : (a b : ℕ) → a ≢ b → (a / 1024 ≢ b / 1024) ⊎ (a % 1024 ≢ b % 1024)
entry_apart a b ne = elim (Bool-cases (a / 1024 == b / 1024)) [
  | inl e ↦ let same = eq_of_== (a / 1024) (b / 1024) e in inr (λ f. ne (omega (arith, same, f)))
  | inr e ↦ inl (λ f. cc (e, (==_iff (a / 1024) (b / 1024)).1 f))
]

map_page-set_page :
    (address : ℕ) (s u : Paging) (f g : Frames) (page changed : Page)
    → paging_get_page address 1 s ≡ (some (entry_of address), u)
    → page_at (entry_of address) u ≡ some page
    → alloc_frame 0 0 page f ≡ some (changed, g)
    → map_page address (s, f) ≡ some (set_page (entry_of address) changed u, g)
unfolding map_page
map_page-set_page address s u f g page changed e0 e1 e2 = rw (e0, e1, e2) refl

-- Where the page allocator does not halt, the page for an address becomes what it makes of the entry for it, which
-- was in a table or is cleared, and the entries for the addresses of other pages stay as they were.
pub map_page-page_at :
    (address other : ℕ) (s : Paging) (f : Frames) (page : Page)
    → ((p : Page) → (q : Page) × (g : Frames) × (alloc_frame 0 0 p f ≡ some (q, g)))
    → address / 0x1000 ≢ other / 0x1000
    → page_at (entry_of other) s ≡ some page
    → (u : Paging) × (g : Frames) × (before : Page) × (after : Page) × ((page_at
            (entry_of address)
            s
          ≡ some before)
        ⊎ (before ≡ zero_page))
      × (alloc_frame 0 0 before f ≡ some (after, g))
      × (map_page address (s, f) ≡ some (u, g))
      × (page_at (entry_of address) u ≡ some after)
      × (page_at (entry_of other) u ≡ some page)
map_page-page_at address other s f page goes apart at =
    let (u, before, e, here, was, kept, again) =
      paging_get_page-entry_of address 1 (other / 0x1000 / 1024) (other / 0x1000 % 1024) s page
        (omega arith) at in
    let (after, g, done) = goes before in
    (
      set_page (entry_of address) after u,
      g,
      before,
      after,
      was,
      done,
      map_page-set_page address s u f g before after e here done,
      page_at-set_page _ _ after before u here,
      page_at-set_page_ne _ _ _ _ after u (entry_apart _ _ apart) ∙ kept,
    )
