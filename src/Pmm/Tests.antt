-- ===== src/Pmm/Tests.antt =====
-- The physical memory manager on a buffer at 0x8000 and regions from 0x100001 on.
use octiron.Base.{
  ℕ, ◌+◌, ◌-◌, ◌^◌, ◌<◌, ◌≡◌, ◌⊎◌, inr, refl, false, done, List, [], ◌∷◌, arith, All, ◌↔◌,
}
use octiron.Errors.{ErrorCode, of_code}
use octiron.Words.{Words}
use octiron.Pmm.{Policy, Region, Pmm, initialize, is_managed, install, add_region, start}
use octiron.Pmm.Spec.{Frames, give}
use octiron.Pmm.Invariant.{IsPmm}
use octiron.Pmm.Alloc.{Allocated, alloc-AllocResult}
use octiron.Pmm.Add.{installed, installed-IsRegion, installed-IsPmm, add_region_guards}
use octiron.Pmm.Accept.{
  ready, Added, initialize-IsPmm, add_region-IsPmm, add_region_wraps, is_managed_iff,
}

abbrev memory : Words
memory p = 0

abbrev pub buffer : ℕ
buffer = 0x8000

abbrev pub no_regions : Pmm
no_regions = ready buffer memory

initialize-IsPmm_example :
    (initialize buffer Policy.first_fit (start memory) ≡ done no_regions) × IsPmm buffer no_regions
initialize-IsPmm_example = initialize-IsPmm buffer memory (omega arith) refl

pub no_regions-IsPmm : IsPmm buffer no_regions
no_regions-IsPmm = (initialize-IsPmm buffer memory (omega arith) refl).1

add_region-IsPmm_example : Added buffer 0x100001 0x6000 no_regions
add_region-IsPmm_example =
    add_region-IsPmm buffer 0x100001 0x6000 no_regions no_regions-IsPmm (omega arith) (omega arith)
      (omega arith) (omega arith) (omega arith) (unfold is_managed in refl) (inr (omega arith))
      (omega arith)

-- A manager of one region with five pages.
abbrev pub one_region : Pmm
one_region = installed buffer 0x101000 0x5000 no_regions no_regions-IsPmm (omega arith)

pub one_region-IsPmm : IsPmm buffer one_region
one_region-IsPmm =
    installed-IsPmm buffer 0x101000 0x5000 no_regions no_regions-IsPmm (omega arith)
      (installed-IsRegion buffer 0x101000 0x5000 no_regions no_regions-IsPmm (omega arith)
        (omega arith) refl refl (omega arith) (omega arith) (inr (omega arith)))
      (omega arith)

abbrev frames_left : List Frames
frames_left = record { base = 0x101000; length = 0x5000; unused = 0x3000 } ∷ []

-- Two pages are asked for with a size that is not whole.
alloc-AllocResult_example : Allocated buffer 0x1001 one_region 0x101000 frames_left
unfolding installed give
alloc-AllocResult_example =
    alloc-AllocResult buffer 0x1001 one_region one_region-IsPmm (omega arith)

add_region_guards_example :
    add_region 0x200001 0x4000 no_regions ≡ install 0x201000 0x3000 no_regions
unfolding is_managed
add_region_guards_example = add_region_guards 0x200001 0x4000 no_regions (omega arith) (omega arith)

add_region_wraps_example :
    add_region 0x100001 16 no_regions
    ≡ done (
      of_code ErrorCode.success,
      installed buffer 0x101000 (2 ^ 64 - 4096) no_regions no_regions-IsPmm (omega arith),
    )
add_region_wraps_example =
    add_region_wraps buffer 0x100001 16 no_regions no_regions-IsPmm (omega arith) (omega arith)
      (omega arith) (omega arith) (unfold is_managed in refl)

abbrev region : Region
region = record { base = 0x101000; length = 0x5000; free_bytes = 0x5000; free_blocks = 0 }

is_managed_iff_example :
    (is_managed 0x106000 (region ∷ []) ≡ false)
    ↔ All (λ r. (0x106000 < r.base) ⊎ (r.base + r.length < 0x106000)) (region ∷ [])
is_managed_iff_example = is_managed_iff 0x106000 (region ∷ []) (omega arith, tt)
