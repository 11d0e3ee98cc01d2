-- ===== src/Bump.antt =====
-- kernel/src/allocators/bump.cpp with the higher-half conversions of
-- kernel/src/limine/platform_info.cpp. A `region` at the pointer r has its fields at r (end), r + 8
-- (curr) and r + 16 (next); a pointer p is the word p - hhdm_base of physical memory.
mod Tests
pub mod Room
pub mod Fresh
mod FreshTests
use octiron.Base.{
  ℕ, zero, suc, ◌+◌, ◌-◌, ◌^◌, ◌%◌, Bool, true, false, ◌||◌, ltb, ◌==◌, if◌then◌else◌, Run, done,
  fault, halt, ◌>>=◌, ◌>>◌, Option, none, some,
}
use octiron.Number.{align_up, u64, sub64}
use octiron.Errors.{Error, is_ok, is_err}
use octiron.Words.{Words, write}
use octiron.Slab.{assert}
use octiron.Pmm.{Pmm, page_size}
use octiron.Pmm.Take.{free, alloc as pmm_alloc}

pub record BumpAlloc : Type 0 where
  pub region_list : ℕ
  pub current_region : ℕ

-- `sizeof(struct region)`.
abbrev pub region_header : ℕ
region_header = 24

-- An access through a pointer, which must not be null.
abbrev pub deref : ℕ → Run (Unit {0})
deref p = if p == 0 then fault else done tt

-- The parameter is `pinfo.hhdm_base`.
module _ (hhdm_base : ℕ) where
  unfoldable pub hhdm_phys_to_virt : ℕ → ℕ
  hhdm_phys_to_virt pa = u64 (pa + hhdm_base)

  unfoldable pub hhdm_virt_to_phys : ℕ → ℕ
  hhdm_virt_to_phys ptr = sub64 ptr hhdm_base

  -- A load and a store through a pointer.
  unfoldable pub load : Words → ℕ → ℕ
  unfolding hhdm_virt_to_phys
  load m ptr = m (hhdm_virt_to_phys ptr)

  unfoldable pub put : Words → ℕ → ℕ → Words
  unfolding hhdm_virt_to_phys
  put m ptr v = write m (hhdm_virt_to_phys ptr) v

  -- The three stores that set up a region.
  unfoldable pub set_up : (region region_size : ℕ) → Words → Words
  unfolding put
  set_up region region_size m =
      put (put (put m region (u64 (region + region_size))) (region + 8) (region + region_header))
        (region + 16) 0

  unfoldable pub grow : Pmm → BumpAlloc → Run (Error × Pmm × BumpAlloc)
  unfolding set_up hhdm_phys_to_virt
  grow s b = do
    (err, ret, s') ← pmm_alloc page_size false s
    elim (is_err err) [
      | true ↦ done (err, s', b)
      | false ↦ elim ret [
        | none ↦ fault
        | some pa ↦
            let region = hhdm_phys_to_virt pa in
            done (
              err,
              record s' { mem = set_up region page_size s'.mem },
              record { region_list = region; current_region = region },
            )
      ]
    ]

  -- `grow` if there is no region. `assert_err` only prints its error, so a failure changes nothing.
  unfoldable pub ensure_region : Pmm → BumpAlloc → Run (Pmm × BumpAlloc)
  unfolding grow
  ensure_region s b =
      if b.current_region == 0 || b.region_list == 0
      then (do (err, s', b') ← grow s b; done (s', b'))
      else done (s, b)

  -- A new region if `size` bytes from `start` on reach behind the end of the current one. An error of
  -- the manager is printed and then ignored.
  unfoldable pub ensure_room : (start size : ℕ) → Pmm → BumpAlloc → Run (Pmm × BumpAlloc)
  unfolding set_up load put hhdm_phys_to_virt
  ensure_room start size s b =
      let end = load s.mem b.current_region in
      if ltb end (u64 (start + size))
      then (do
        let difference = sub64 (u64 (start + size)) end
        let region_size = u64 (align_up difference page_size + page_size)
        (err, ret, s') ← pmm_alloc region_size false s
        elim ret [
          | none ↦ fault
          | some pa ↦
              let new_region = hhdm_phys_to_virt pa in
              done (
                record s' {
                  mem =
                      set_up new_region region_size (put s'.mem (b.current_region + 16) new_region);
                },
                record b { current_region = new_region },
              )
        ])
      else done (s, b)

  -- The address of the memory, or 0 for `nullptr`.
  unfoldable pub alloc : (size : ℕ) → Pmm → BumpAlloc → Run (ℕ × Pmm × BumpAlloc)
  alloc size s b = if b.current_region == 0 || size == 0 then done (0, s, b) else (do
    (s₁, b₁) ← ensure_region s b
    (s₂, b₂) ← ensure_room (load s₁.mem (b₁.current_region + 8)) size s₁ b₁
    let allocation = load s₂.mem (b₂.current_region + 8)
    done (
      allocation,
      record s₂ { mem = put s₂.mem (b₂.current_region + 8) (u64 (allocation + size)) },
      b₂,
    ))

  unfoldable pub alloc_aligned : (size alignment : ℕ) → Pmm → BumpAlloc → Run (ℕ × Pmm × BumpAlloc)
  alloc_aligned size alignment s b = if size == 0 || alignment == 0 then done (0, s, b) else (do
    (s₁, b₁) ← ensure_region s b
    deref b₁.current_region
    let aligned_curr = align_up (load s₁.mem (b₁.current_region + 8)) alignment
    (s₂, b₂) ← ensure_room aligned_curr size s₁ b₁
    let allocation = align_up (load s₂.mem (b₂.current_region + 8)) alignment
    done (
      allocation,
      record s₂ { mem = put s₂.mem (b₂.current_region + 8) (u64 (allocation + size)) },
      b₂,
    ))

  -- The destructor's loop over the regions; `fuel` bounds its rounds.
  unfoldable pub free_regions : (fuel curr : ℕ) → Pmm → Run Pmm
  unfolding load
  free_regions zero curr s = halt
  free_regions (suc fuel) curr s = elim (curr == 0) [
    | true ↦ done s
    | false ↦
        let freed = free (hhdm_virt_to_phys curr) s in
        free_regions fuel (load freed.1.mem (curr + 16)) freed.1
  ]

  unfoldable pub destroy : (fuel : ℕ) → Pmm → BumpAlloc → Run (Pmm × BumpAlloc)
  unfolding free_regions
  destroy fuel s b = do
    s' ← free_regions fuel b.region_list s
    done (s', record { region_list = 0; current_region = 0 })

-- The move constructor and the move assignment: `todo()`, which never returns.
unfoldable pub move : BumpAlloc → Run (BumpAlloc × BumpAlloc)
move other = halt
