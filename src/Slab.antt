-- ===== src/Slab.antt =====
-- kernel/include/allocators/slab.h: `slab_alloc<T>` on memory as words. A `slab_region` at address
-- r has its fields at r (m_total), r + 8 (m_free), r + 16 (m_blocks) and r + 24 (m_next); a free
-- block has `m_next` at its own address. `alloc` zeroes the block, as with `ZeroOut = true`.
mod Tests
pub mod Free
pub mod Grow
use octiron.Base.{
  ℕ, zero, suc, ◌+◌, ◌-◌, ◌*◌, ◌/◌, Bool, true, false, ◌&&◌, not, ltb, leb, ◌==◌, if◌then◌else◌,
  Run, done, fault, halt, ◌>>=◌, ◌>>◌,
}
use octiron.Number.{align_up, is_aligned, sub64, u64}
use octiron.Errors.{Error, ErrorCode, of_code, not_implemented}
use octiron.Words.{Words, write, fill_zero}

pub record SlabAlloc : Type 0 where
  pub regions : ℕ
  pub total : ℕ
  pub free : ℕ

abbrev pub empty_slab : SlabAlloc
empty_slab = record { regions = 0; total = 0; free = 0 }

-- `sizeof(slab_region)` and `alignof(slab_region)`.
abbrev pub header_size : ℕ
header_size = 32

abbrev pub region_align : ℕ
region_align = 8

-- `assert(condition)`.
abbrev pub assert : Bool → Run (Unit {0})
assert true = done tt
assert false = halt

-- The parameters are `s_BLOCK_SZ` and `s_BLOCK_ALIGN`.
module _ (block_sz block_align : ℕ) where
  unfoldable pub region_size : ℕ → ℕ
  region_size n = align_up header_size block_align + n * block_sz

  -- The loop that links the blocks, with `n` rounds to go, and the store behind it.
  unfoldable pub link_blocks : ℕ → ℕ → Words → Words
  link_blocks zero block m = write m block 0
  link_blocks (suc n) block m = link_blocks n (block + block_sz) (write m block (block + block_sz))

  -- The header of a region at `ptr` with `n` free blocks from `first` on.
  unfoldable pub new_region : ℕ → ℕ → ℕ → Words → Words
  new_region ptr n first m = write (write (write m ptr n) (ptr + 8) n) (ptr + 16) first

  unfoldable pub grow : ℕ → ℕ → Words → SlabAlloc → Run (Words × SlabAlloc)
  unfolding region_size link_blocks new_region
  grow buffer buffer_size m s = do
    assert (not (buffer == 0))
    assert (is_aligned buffer region_align)
    assert (leb (region_size 1) buffer_size)
    let n = (buffer_size - header_size) / block_sz
    let first = buffer + align_up header_size block_align
    let linked = link_blocks n first (new_region buffer n first m)
    done (
      write linked (buffer + 24) s.regions,
      record { regions = buffer; total = u64 (s.total + n); free = u64 (s.free + n) },
    )

  -- The walk to the first region with a free block; 0 if there is none. Each region has a block at
  -- least, so a walk longer than `m_total` is in a cycle and never ends.
  unfoldable pub find_region : ℕ → Words → ℕ → Run ℕ
  find_region zero m region = halt
  find_region (suc n) m region = elim (region == 0) [
    | true ↦ done 0
    | false ↦ elim (m (region + 8) == 0) [
      | true ↦ find_region n m (m (region + 24))
      | false ↦ done region
    ]
  ]

  -- Takes the first block off the region's list and zeroes it.
  unfoldable pub dequeue : ℕ → Words → SlabAlloc → Run (ℕ × Words × SlabAlloc)
  dequeue region m s =
      let b = m (region + 16) in
      if b == 0
      then fault
      else done (
        b,
        fill_zero (write (write m (region + 16) (m b)) (region + 8) (sub64 (m (region + 8)) 1)) b
            block_sz,
        record s { free = sub64 s.free 1 },
      )

  -- The address of a block, or 0 for `nullptr`.
  unfoldable pub alloc : Words → SlabAlloc → Run (ℕ × Words × SlabAlloc)
  unfolding find_region dequeue
  alloc m s = if s.free == 0 then done (0, m, s) else (do
    region ← find_region (suc s.total) m s.regions
    if region == 0 then done (0, m, s) else dequeue region m s)

unfoldable pub free : ℕ → Error
free obj = of_code not_implemented

unfoldable pub free_count : SlabAlloc → ℕ
free_count s = s.free
