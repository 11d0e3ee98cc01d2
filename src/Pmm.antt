-- ===== src/Pmm.antt =====
-- kernel/src/pmm.cpp: the physical memory manager. `mem` is memory as words, with a `memory_block`
-- at address b in the words b (base), b + 8 (length) and b + 16 (next). The first `region_count`
-- entries of the array `regions` are a list, so `region_count` is its length.
pub mod Tests
pub mod Spec
pub mod Take
pub mod Add
pub mod Invariant
pub mod Scan
pub mod Loop
pub mod Accept
pub mod Alloc
use octiron.Base.{
  ℕ, ◌+◌, ◌-◌, Bool, true, false, ◌&&◌, ◌||◌, not, ltb, leb, ◌==◌, if◌then◌else◌, Run, done, fault,
  halt, ◌>>=◌, ◌>>◌, Option, none, some, List, [], ◌∷◌, ◌++◌, length, bit_and,
}
use octiron.Number.{align_up, align_down, sub64, u64}
use octiron.Errors.{Error, ErrorCode, of_code, is_ok}
use octiron.Words.{Words, write, fill_zero}
use octiron.Slab
use octiron.Slab.{SlabAlloc, empty_slab, assert}
use octiron.Slab.Free.{block_size, block_align}

pub data Policy : Type 0 where
  first_fit best_fit worst_fit next_fit : Policy

-- `riscv::sv39::PAGE_SIZE`, `REGION_COUNT` and `INITIAL_MEM_BLOCK_COUNT`.
abbrev pub page_size : ℕ
page_size = 0x1000

abbrev pub max_regions : ℕ
max_regions = 16

abbrev pub initial_blocks : ℕ
initial_blocks = 64

-- `BLOCK_BUF_SIZE`.
unfoldable pub block_buf_size : ℕ
unfolding Slab.region_size
block_buf_size = Slab.region_size block_size block_align initial_blocks

pub record Region : Type 0 where
  pub base : ℕ
  pub length : ℕ
  pub free_bytes : ℕ
  pub free_blocks : ℕ

pub record Pmm : Type 0 where
  pub pol : Policy
  pub total_bytes : ℕ
  pub free_bytes : ℕ
  pub regions : List Region
  pub block_allocator : SlabAlloc
  pub mem : Words

-- The static state, with memory as the loader left it.
abbrev pub start : Words → Pmm
start m = record {
  pol = first_fit;
  total_bytes = 0;
  free_bytes = 0;
  regions = [];
  block_allocator = empty_slab;
  mem = m;
}

-- `block_buf` is the address that the linker gave to `BLOCK_BUF`.
unfoldable pub initialize : (block_buf : ℕ) → Policy → Pmm → Run Pmm
initialize block_buf p s = do
  (m, slab) ← Slab.grow block_size block_align block_buf block_buf_size s.mem s.block_allocator
  done (record s { pol = p; mem = m; block_allocator = slab })

-- The loop that looks for a managed region around the new base.
unfoldable pub is_managed : ℕ → List Region → Bool
is_managed aligned_base [] = false
is_managed aligned_base (r ∷ rs) =
    (leb r.base aligned_base && leb aligned_base (u64 (r.base + r.length)))
    || is_managed aligned_base rs

-- The new region's block: two are taken, and the second is used.
unfoldable pub install : ℕ → ℕ → Pmm → Run (Error × Pmm)
install aligned_base aligned_size s = do
  (free_block, m, slab) ← Slab.alloc block_size block_align s.mem s.block_allocator
  assert (not (free_block == 0))
  (b, m', slab') ← Slab.alloc block_size block_align m slab
  assert (not (free_block == 0))
  if b == 0
      then fault
      else done (
        of_code ErrorCode.success,
        record {
          pol = s.pol;
          total_bytes = u64 (s.total_bytes + aligned_size);
          free_bytes = u64 (s.free_bytes + aligned_size);
          regions =
              s.regions
              ++ record {
                base = aligned_base;
                length = aligned_size;
                free_bytes = aligned_size;
                free_blocks = b;
              }
                ∷ [];
          block_allocator = slab';
          mem = write (write (write m' b aligned_base) (b + 8) aligned_size) (b + 16) 0;
        },
      )

unfoldable pub add_region : ℕ → ℕ → Pmm → Run (Error × Pmm)
unfolding is_managed install
add_region region_base region_size s =
    let aligned_base = align_up region_base page_size in
    let aligned_size = align_down (sub64 region_size (sub64 aligned_base region_base)) page_size in
    let region_fits = leb (u64 (aligned_base + aligned_size)) (u64 (region_base + region_size)) in
    let size_non_zero = leb page_size aligned_size in
    if region_base == 0
    then done (of_code ErrorCode.null_argument, s)
    else if leb max_regions (length s.regions)
    then done (of_code ErrorCode.pmm_region_list_full, s)
    else if not region_fits || not size_non_zero
    then done (of_code ErrorCode.pmm_region_too_small, s)
    else if is_managed aligned_base s.regions
    then done (of_code ErrorCode.pmm_region_managed, s)
    else install aligned_base aligned_size s

unfoldable pub remove_region : ℕ → ℕ → Pmm → Error × Pmm
remove_region region_base region_size s = (of_code ErrorCode.not_implemented, s)
