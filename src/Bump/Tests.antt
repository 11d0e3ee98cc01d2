-- ===== src/Bump/Tests.antt =====
-- A bump allocator with one region, at the physical address 0x101000.
use octiron.Base.{ℕ, ◌≡◌, ◌==◌, if◌then◌else◌, refl, done, arith}
use octiron.Words.{Words}
use octiron.Pmm.{Pmm, start}
use octiron.Bump.{BumpAlloc, hhdm_virt_to_phys, load, alloc}
use octiron.Bump.Room.{HasRegion, moved, alloc-alloc}

abbrev direct_map : ℕ
direct_map = 0xFFFF000000000000

abbrev memory : Words
memory p =
    if p == 0x101000 then 0xFFFF000000102000 else if p == 0x101008 then 0xFFFF000000101018 else 0

abbrev state : Pmm
state = start memory

abbrev bump : BumpAlloc
bump = record { region_list = 0xFFFF000000101000; current_region = 0xFFFF000000101000 }

bump-HasRegion : HasRegion direct_map state bump 0xFFFF000000101018 0xFFFF000000102000
unfolding load hhdm_virt_to_phys
bump-HasRegion = record {
  listed = omega arith;
  mapped = omega arith;
  there = omega arith;
  no_wrap = omega arith;
  end_word = refl;
  curr_word = refl;
  end_fits = omega arith;
}

alloc-alloc_example :
    let first = moved direct_map state bump 0xFFFF000000101028 in
    (alloc direct_map 16 state bump ≡ done (0xFFFF000000101018, first, bump))
    × HasRegion direct_map first bump 0xFFFF000000101028 0xFFFF000000102000
    × (alloc direct_map 8 first bump
        ≡ done (0xFFFF000000101028, moved direct_map first bump 0xFFFF000000101030, bump))
alloc-alloc_example =
    alloc-alloc direct_map 16 8 state bump 0xFFFF000000101018 0xFFFF000000102000 bump-HasRegion
      (omega arith) (omega arith) (omega arith)
