-- ===== src/Bump/FreshTests.antt =====
-- A bump allocator whose region at the physical address 0x500000 is nearly used up, hardly used, or
-- without a manager that has memory.
use octiron.Base.{ℕ, ◌+◌, ◌^◌, ◌<◌, ◌≤◌, ◌==◌, if◌then◌else◌, refl, [], ◌∷◌, arith, inr}
use octiron.Words.{Words}
use octiron.Pmm.{Pmm}
use octiron.Pmm.Spec.{give}
use octiron.Pmm.Invariant.{IsPmm}
use octiron.Pmm.Add.{installed, installed-IsRegion, installed-IsPmm}
use octiron.Pmm.Accept.{ready, initialize-IsPmm}
use octiron.Slab.Grow.{grown}
use octiron.Bump.{BumpAlloc, hhdm_virt_to_phys, load}
use octiron.Bump.Room.{HasRegion}
use octiron.Bump.Fresh.{InNewRegion, alloc-InNewRegion, alloc_overruns, alloc_without_memory}

-- The words of the region: its end and its first free byte, in the direct map at 0x1000000.
abbrev memory : (end curr : ℕ) → Words
memory end curr p = if p == 0x500000 then end else if p == 0x500008 then curr else 0

module _ (end curr : ℕ) where
  abbrev empty_manager : Pmm
  empty_manager = ready 0x8000 (memory end curr)

  empty-IsPmm : IsPmm 0x8000 empty_manager
  empty-IsPmm = (initialize-IsPmm 0x8000 (memory end curr) (omega arith) refl).1

  -- A manager of one region of 32 pages.
  abbrev manager : Pmm
  manager = installed 0x8000 0x101000 0x20000 empty_manager empty-IsPmm (omega arith)

  manager-IsPmm : IsPmm 0x8000 manager
  manager-IsPmm =
      installed-IsPmm 0x8000 0x101000 0x20000 empty_manager empty-IsPmm (omega arith)
        (installed-IsRegion 0x8000 0x101000 0x20000 empty_manager empty-IsPmm (omega arith)
          (omega arith) refl refl (omega arith) (omega arith) (inr (omega arith)))
        (omega arith)

abbrev bump : BumpAlloc
bump = record { region_list = 0x1500000; current_region = 0x1500000 }

-- The words that tell the region's end and its first free byte are not the manager's.
HasRegion-manager :
    (end curr : ℕ) → end < 2 ^ 64 → HasRegion 0x1000000 (manager end curr) bump curr end
unfolding load hhdm_virt_to_phys installed grown octiron.Words.write octiron.Pmm.Add.twice
    octiron.Slab.Free.taken octiron.Words.fill_zero octiron.Slab.link_blocks octiron.Slab.new_region
HasRegion-manager end curr small = record {
  listed = omega arith;
  mapped = omega arith;
  there = omega arith;
  no_wrap = omega arith;
  end_word = refl;
  curr_word = refl;
  end_fits = small;
}

HasRegion-empty :
    (end curr : ℕ) → end < 2 ^ 64 → HasRegion 0x1000000 (empty_manager end curr) bump curr end
unfolding load hhdm_virt_to_phys grown octiron.Words.write octiron.Words.fill_zero
    octiron.Slab.link_blocks octiron.Slab.new_region
HasRegion-empty end curr small = record {
  listed = omega arith;
  mapped = omega arith;
  there = omega arith;
  no_wrap = omega arith;
  end_word = refl;
  curr_word = refl;
  end_fits = small;
}

-- 0x100 bytes from a region that has 0x10 left.
alloc-InNewRegion_example :
    InNewRegion 0x1000000
      (manager 0x1501000 0x1500ff0)
      bump
      0x1500ff0
      0x1501000
      0x100
      (HasRegion-manager 0x1501000 0x1500ff0 (omega arith))
      (omega arith)
      (omega arith)
      (omega arith)
      (omega arith)
      (omega arith)
      0x101000
      (record { base = 0x101000; length = 0x20000; unused = 0x1e000 } ∷ [])
    × (0x1000000 + 0x101000 + 24 + 0x100 ≤ 0x1000000 + 0x101000 + 0x2000)
unfolding give installed
alloc-InNewRegion_example =
    alloc-InNewRegion 0x1000000 (manager 0x1501000 0x1500ff0) bump 0x1500ff0 0x1501000 0x100
      (HasRegion-manager 0x1501000 0x1500ff0 (omega arith)) (omega arith) (omega arith)
      (omega arith) (omega arith) (omega arith) 0x8000 (manager-IsPmm 0x1501000 0x1500ff0) 0x101000
      (record { base = 0x101000; length = 0x20000; unused = 0x1e000 } ∷ []) refl (omega arith)
      (omega arith)

-- 0x10000 bytes from a region that has 0xf000 left.
alloc_overruns_example :
    InNewRegion 0x1000000
      (manager 0x1510000 0x1501000)
      bump
      0x1501000
      0x1510000
      0x10000
      (HasRegion-manager 0x1510000 0x1501000 (omega arith))
      (omega arith)
      (omega arith)
      (omega arith)
      (omega arith)
      (omega arith)
      0x101000
      (record { base = 0x101000; length = 0x20000; unused = 0x1e000 } ∷ [])
    × (0x1000000 + 0x101000 + 0x2000 < 0x1000000 + 0x101000 + 24 + 0x10000)
unfolding give installed
alloc_overruns_example =
    alloc_overruns 0x1000000 (manager 0x1510000 0x1501000) bump 0x1501000 0x1510000 0x10000
      (HasRegion-manager 0x1510000 0x1501000 (omega arith)) (omega arith) (omega arith)
      (omega arith) (omega arith) (omega arith) 0x8000 (manager-IsPmm 0x1510000 0x1501000) 0x101000
      (record { base = 0x101000; length = 0x20000; unused = 0x1e000 } ∷ []) refl (omega arith)
      (omega arith)

alloc_without_memory_example :
    InNewRegion 0x1000000
      (empty_manager 0x1501000 0x1500ff0)
      bump
      0x1500ff0
      0x1501000
      0x100
      (HasRegion-empty 0x1501000 0x1500ff0 (omega arith))
      (omega arith)
      (omega arith)
      (omega arith)
      (omega arith)
      (omega arith)
      0
      []
unfolding give
alloc_without_memory_example =
    alloc_without_memory 0x1000000 (empty_manager 0x1501000 0x1500ff0) bump 0x1500ff0 0x1501000
      0x100 (HasRegion-empty 0x1501000 0x1500ff0 (omega arith)) (omega arith) (omega arith)
      (omega arith) (omega arith) (omega arith) 0x8000 (empty-IsPmm 0x1501000 0x1500ff0) refl
      (omega arith)
