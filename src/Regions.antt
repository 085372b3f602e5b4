-- ===== src/Regions.antt =====
-- kernel/arch/x86/mman.c: the list of memory regions, linked in memory. A region is its address, 0 for NULL.
-- `none` is an access outside of `mman_prealloc`, or rounds that have run out.
pub mod Append
pub mod Resize
pub mod Boot
mod Tests
use beryllium.Base.{
  ℕ, zero, suc, ◌+◌, ◌*◌, ◌/◌, ◌%◌, ◌^◌, Bool, true, false, not, ◌&&◌, Option, none, some, ◌>>=◌,
  leb, ltb, ◌==◌, if◌then◌else◌,
}

-- `mman_region_t`; `kind` is the field `type`.
pub record Region : Type 0 where
  pub prev : ℕ
  pub next : ℕ
  pub used : ℕ
  pub kind : ℕ
  pub flags : ℕ
  pub start : ℕ
  pub size : ℕ

abbrev pub zero_region : Region
zero_region = record { prev = 0; next = 0; used = 0; kind = 0; flags = 0; start = 0; size = 0 }

-- `mman_region`, `mman_prealloc_ptr`, `mman_status`, and the regions in memory.
pub record Manager : Type 0 where
  pub regions : ℕ → Region
  pub mman_region : ℕ
  pub prealloc_ptr : ℕ
  pub status : ℕ

unfoldable pub write : ℕ → Region → (ℕ → Region) → ℕ → Region
write a v regions b = if b == a then v else regions b

-- The region is linked behind the last one.
abbrev pub link_behind : (parent region : ℕ) → (ℕ → Region) → ℕ → Region
link_behind parent region regions =
    let r1 = write parent (record (regions parent) { next = region }) regions in
    let r2 = write region (record (r1 region) { prev = parent }) r1 in
    write region (record (r2 region) { next = 0 }) r2

-- The loop of `memsig` that links the region behind the last one.
unfoldable pub link_last : (rounds parent region : ℕ) → (ℕ → Region) → Option (ℕ → Region)
link_last zero parent region regions = none
link_last (suc n) parent region regions =
    let rest = link_last n (regions parent).next region regions in
    if parent == 0
    then some (write region (record (regions region) { next = 0 }) regions)
    else if (regions parent).next == 0
    then some (link_behind parent region regions)
    else rest

-- `region` with its fields set, in front of the loop.
unfoldable pub fill : (region start size kind flags : ℕ) → (ℕ → Region) → ℕ → Region
fill region start size kind flags regions =
    write region
      (record (regions region) { start = start; size = size; kind = kind; flags = flags; used = 1 })
      regions

-- The array `mman_prealloc` of 255 regions of 20 bytes is at the address `prealloc`.
module _ (prealloc : ℕ) where
  -- The region that `memsig` takes; `allocated` is what `malloc` returns.
  unfoldable pub new_region : (allocated : ℕ) → Manager → Option ℕ
  new_region allocated s =
      if s.status == 1
      then (if ltb s.prealloc_ptr 255 then some (prealloc + 20 * s.prealloc_ptr) else none)
      else some allocated

  unfoldable pub memsig :
      (rounds allocated start size kind flags : ℕ) → Manager → Option (Manager × ℕ)
  memsig rounds allocated start size kind flags s =
      if size == 0 then some (s, 1) else if s.status == 0 then some (s, 2) else do
        region ← new_region allocated s
        regions ←
            link_last rounds s.mman_region region (fill region start size kind flags s.regions)
        some (
          record s {
            regions = regions;
            prealloc_ptr = if s.status == 1 then (s.prealloc_ptr + 1) % 2 ^ 8 else s.prealloc_ptr;
            status = if (kind == 1) && (s.status == 1) then 2 else s.status;
          },
          0,
        )

  -- What `memman_init` sets before it calls `memsig`.
  unfoldable pub cleared : Manager → Manager
  cleared s = record s {
    regions =
        λ a. if leb prealloc a && ltb a (prealloc + 20 * 255) then zero_region else s.regions a;
    mman_region = prealloc;
    status = 1;
  }

  -- `end` is the address of the symbol `_end`; `malloc` is not called.
  unfoldable pub memman_init : (end : ℕ) → Manager → Option Manager
  memman_init end s = do
    first ← memsig 2 0 0 end 0 33 (cleared s)
    second ← memsig 3 0 ((end / 4096 * 4096 + 4096) % 2 ^ 32) 1048576 1 33 first.0
    some second.0

-- The loop of `memresize`, up to its result.
unfoldable pub check : (rounds parent region new_end : ℕ) → (ℕ → Region) → Option ℕ
check zero parent region new_end regions = none
check (suc n) parent region new_end regions =
    let rest = check n (regions parent).next region new_end regions in
    if parent == 0
    then some 2
    else if not (parent == region)
        && (ltb (regions region).start (regions parent).start && ltb (regions parent).start new_end)
    then some 1
    else if (regions parent).next == 0
    then some 0
    else rest

unfoldable pub memresize : (rounds region size : ℕ) → Manager → Option (Manager × ℕ)
memresize rounds region size s = do
  result ← check rounds s.mman_region region ((size + (s.regions region).start) % 2 ^ 32) s.regions
  some (
      if result == 0
      then (
        record s { regions = write region (record (s.regions region) { size = size }) s.regions },
        0,
      )
      else (s, result))

-- The loop of `get_kernel_heap`.
unfoldable pub heap_from : (rounds parent : ℕ) → (ℕ → Region) → Option ℕ
heap_from zero parent regions = none
heap_from (suc n) parent regions =
    let rest = heap_from n (regions parent).next regions in
    if parent == 0 then some 0 else if (regions parent).kind == 1 then some parent else rest

unfoldable pub get_kernel_heap : (rounds : ℕ) → Manager → Option ℕ
get_kernel_heap rounds s = heap_from rounds s.mman_region s.regions

-- `mem_heap_sbrk`, where `memallocp` takes a number of pages and returns an address.
module _ {W : Type 0} (memallocp : ℕ → W → W × ℕ) where
  unfoldable pub heap_end : (heap : ℕ) → Manager → W → Option (W × ℕ)
  heap_end heap s w =
      if heap == 0
      then none
      else some (w, ((s.regions heap).start + (s.regions heap).size) % 2 ^ 32)

  unfoldable pub mem_heap_sbrk : (rounds amount : ℕ) → Manager → W → Option (W × ℕ)
  mem_heap_sbrk rounds amount s w = do
    heap ← get_kernel_heap rounds s
    let pages = amount / 4096
    (if amount == 0
        then heap_end heap s w
        else some (memallocp (if pages == 0 then 1 else pages) w))
