-- ===== src/Regions/Tests.antt =====
-- kernel/arch/x86/mman.c: the regions of the kernel and its heap, as `memman_init` makes them.
use beryllium.Base.{
  ℕ, ◌+◌, ◌%◌, ◌^◌, ◌≡◌, ◌≢◌, refl, ◌⊎◌, [], ◌∷◌, ◌++◌, some, arith, ◌==◌, if◌then◌else◌,
}
use beryllium.Regions.{
  Region, zero_region, Manager, write, new_region, memsig, check, memresize, heap_from,
  get_kernel_heap,
}
use beryllium.Regions.Append.{IsRegions, memsig-append}
use beryllium.Regions.Resize.{IsClear, memresize-IsClear}

abbrev regions : ℕ → Region
regions a =
    if a == 40960
    then record {
      prev = 40960;
      next = 40980;
      used = 1;
      kind = 0;
      flags = 33;
      start = 0;
      size = 200000;
    }
    else if a == 40980
    then record {
      prev = 40960;
      next = 0;
      used = 1;
      kind = 1;
      flags = 33;
      start = 200704;
      size = 1048576;
    }
    else zero_region

abbrev manager : Manager
manager = record { regions = regions; mman_region = 40960; prealloc_ptr = 2; status = 2 }

manager-IsRegions : IsRegions manager (40960 ∷ (40980 ∷ []))
manager-IsRegions = record {
  linked = (refl, omega arith, (refl, omega arith, refl));
  apart = ((omega arith, tt), (tt, tt));
}

memsig-append_example :
    (s' : Manager) × (memsig 40960 2 300000 4096 8192 3 16 manager ≡ some (s', 0))
    × IsRegions s' ((40960 ∷ (40980 ∷ [])) ++ (300000 ∷ []))
    × ((s'.regions 300000).start ≡ 4096)
    × ((s'.regions 300000).size ≡ 8192)
    × ((s'.regions 300000).kind ≡ 3)
    × ((x : ℕ)
        → x ≢ 300000
        → ((s'.regions x).start ≡ (manager.regions x).start)
          × ((s'.regions x).size ≡ (manager.regions x).size))
unfolding new_region
memsig-append_example =
    memsig-append 40960 2 300000 4096 8192 3 16 300000 manager (40960 ∷ (40980 ∷ []))
      manager-IsRegions (omega arith) (omega arith) (omega arith) (omega arith) refl (omega arith)
      (omega arith, (omega arith, tt))

memresize-IsClear_example :
    (memresize 2 40960 300000 manager ≡ some (manager, 1))
    ⊎ ((memresize 2 40960 300000 manager
          ≡ some (
            record manager {
              regions =
                  write 40960 (record (manager.regions 40960) { size = 300000 }) manager.regions;
            },
            0,
          ))
        × IsClear manager.regions 40960
            ((300000 + (manager.regions 40960).start) % 2 ^ 32)
            (40960 ∷ (40980 ∷ [])))
memresize-IsClear_example =
    memresize-IsClear 2 40960 300000 manager (40960 ∷ (40980 ∷ [])) manager-IsRegions (omega arith)
      (omega arith)

-- The kernel cannot grow into the heap.
stopped_by_heap : memresize 2 40960 300000 manager ≡ some (manager, 1)
unfolding memresize check
stopped_by_heap = refl

heap_found : get_kernel_heap 2 manager ≡ some 40980
unfolding get_kernel_heap heap_from
heap_found = refl

abbrev unset : Manager
unset = record { regions = λ a. zero_region; mman_region = 0; prealloc_ptr = 0; status = 0 }
