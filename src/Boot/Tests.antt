-- ===== src/Boot/Tests.antt =====
-- A memory map with two usable entries around a reserved one.
use octiron.Base.{◌≡◌, inr, refl, done, List, [], ◌∷◌, map, arith}
use octiron.Words.{Words}
use octiron.Pmm.{Pmm}
use octiron.Pmm.Spec.{view}
use octiron.Pmm.Invariant.{IsPmm}
use octiron.Boot.{MemmapEntry, set_up_memory}
use octiron.Boot.Filled.{IsGood, set_up_memory-Filled}

abbrev memmap : List MemmapEntry
memmap =
    record { base = 0x100001; length = 0x6000; type = 0 }
    ∷ record { base = 0; length = 0x1000; type = 1 }
    ∷ record { base = 0x200000; length = 0x8000; type = 0 }
    ∷ []

abbrev zeros : Words
zeros p = 0

memmap-IsGood : IsGood 0x8000 [] memmap
memmap-IsGood = (
  record {
    positive = omega arith;
    no_wrap = omega arith;
    reaches = omega arith;
    has_page = omega arith;
    apart_buf = inr (omega arith);
    apart = tt;
    few = omega arith;
    sum = omega arith;
  },
  (
    record {
      positive = omega arith;
      no_wrap = omega arith;
      reaches = omega arith;
      has_page = omega arith;
      apart_buf = inr (omega arith);
      apart = (inr (omega arith), tt);
      few = omega arith;
      sum = omega arith;
    },
    tt,
  ),
)

set_up_memory-Filled_example :
    (s : Pmm) × (set_up_memory 0x8000 memmap zeros ≡ done s)
    × IsPmm 0x8000 s
    × (map view s.regions
        ≡ record { base = 0x101000; length = 0x5000; unused = 0x5000 }
          ∷ record { base = 0x200000; length = 0x8000; unused = 0x8000 }
          ∷ [])
    × (s.free_bytes ≡ 0xD000)
set_up_memory-Filled_example =
    set_up_memory-Filled 0x8000 memmap zeros (omega arith) refl memmap-IsGood
