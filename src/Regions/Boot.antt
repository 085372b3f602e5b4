-- ===== src/Regions/Boot.antt =====
-- kernel/arch/x86/mman.c: what `memman_init` leaves.
use beryllium.Base.{
  ℕ, ◌+◌, ◌*◌, ◌/◌, ◌%◌, ◌^◌, ◌≡◌, ◌≢◌, refl, true, [], ◌∷◌, some, arith, ◌==◌, ne→==,
}
use beryllium.Regions.{
  Manager, write, fill, link_behind, link_last, new_region, memsig, cleared, memman_init,
}
use beryllium.Regions.Append.{IsRegions, memsig-append}

module _ (p end : ℕ) (s : Manager) (placed : p ≢ 0) (kernel : end ≢ 0)
    (unused : s.prealloc_ptr ≡ 0) where
  abbrev start : Manager
  start = cleared p s

  -- The kernel's region is the first of the array, to which `mman_region` points before it is linked.
  abbrev first : Manager
  first = record start {
    regions = link_behind p p (fill p 0 end 0 33 start.regions);
    prealloc_ptr = 1;
    status = 1;
  }

  first_next : (fill p 0 end 0 33 start.regions p).next ≡ 0
  unfolding fill write cleared
  first_next = ground arith

  first_region : new_region p 0 start ≡ some p
  unfolding new_region cleared
  first_region = let place : p + 20 * 0 ≡ p = omega arith in rw (unused, place) refl

  first_link :
      link_last 2 p p (fill p 0 end 0 33 start.regions)
      ≡ some (link_behind p p (fill p 0 end 0 33 start.regions))
  unfolding link_last
  first_link =
      let last : ((fill p 0 end 0 33 start.regions p).next == 0) ≡ true =
        ground (arith, first_next) in
      rw (ne→== p 0 placed, last) refl

  first_memsig : memsig p 2 0 0 end 0 33 start ≡ some (first, 0)
  unfolding memsig cleared
  first_memsig = rw (ne→== end 0 kernel, first_region, first_link, unused) refl

  first_end : (first.regions p).next ≡ 0
  unfolding write fill
  first_end = ground arith

  first-IsRegions : IsRegions first (p ∷ [])
  unfolding cleared
  first-IsRegions = record { linked = (refl, placed, first_end); apart = (tt, tt) }

  second_region : new_region p 0 first ≡ some (p + 20)
  unfolding new_region
  second_region = let place : p + 20 * 1 ≡ p + 20 = omega arith in rw place refl

  -- `memman_init` leaves the kernel's region and behind it, from the next page on, the heap's.
  pub memman_init-IsRegions :
      (s' : Manager) × (memman_init p end s ≡ some s')
      × IsRegions s' (p ∷ ((p + 20) ∷ []))
      × ((s'.regions (p + 20)).start ≡ (end / 4096 * 4096 + 4096) % 2 ^ 32)
      × ((s'.regions (p + 20)).size ≡ 1048576)
      × ((s'.regions (p + 20)).kind ≡ 1)
  unfolding memman_init
  memman_init-IsRegions =
      let (s', run, ok, at, size, kind, others) =
        memsig-append p 3 0 ((end / 4096 * 4096 + 4096) % 2 ^ 32) 1048576 1 33 (p + 20) first
          (p ∷ []) first-IsRegions (omega arith) (omega arith) (omega arith) (omega arith)
          second_region (omega arith) (omega arith, tt) in
      (s', rw (first_memsig, run) refl, ok, at, size, kind)
