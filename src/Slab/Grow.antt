-- ===== src/Slab/Grow.antt =====
-- `grow` on an empty `slab_alloc<memory_block>`.
use octiron.Base.{
  ℕ, zero, suc, ◌+◌, ◌-◌, ◌*◌, ◌/◌, ◌%◌, ◌≤◌, ◌<◌, ◌≡◌, refl, arith, ◌^◌, done, ap, ◌∙◌,
}
use octiron.Number.{align_up, is_aligned}
use octiron.Words.{Words, write}
use octiron.Slab.{SlabAlloc, empty_slab, grow, link_blocks, new_region, region_size}
use octiron.Slab.Free.{IsSlab, slot, block_size, block_align}

module _ (n block : ℕ) (m : Words) where
  abbrev linked : Words
  linked = link_blocks block_size block_align n block m

link_blocks_end :
    (n block : ℕ) (m : Words) → link_blocks block_size block_align n block m (block + 24 * n) ≡ 0
unfolding link_blocks write
link_blocks_end zero block m = ground arith
link_blocks_end (suc n) block m =
    ap (linked n (block + 24) (write m block (block + 24))) {x = block + 24 * suc n}
      {y = block + 24 + 24 * n} (omega arith)
    ∙ link_blocks_end n (block + 24) (write m block (block + 24))

link_blocks_below :
    (n block : ℕ) (m : Words) (p : ℕ)
    → p < block
    → link_blocks block_size block_align n block m p ≡ m p
unfolding link_blocks write
link_blocks_below zero block m p h = ground arith
link_blocks_below (suc n) block m p h =
    link_blocks_below n (block + 24) (write m block (block + 24)) p (omega arith) ∙ ground arith

link_blocks_inside :
    (n block : ℕ) (m : Words) (i : ℕ)
    → i < n
    → link_blocks block_size block_align n block m (block + 24 * i) ≡ block + 24 * suc i
unfolding link_blocks write
link_blocks_inside zero block m i h = elim h [ ]
link_blocks_inside (suc n) block m zero h =
    ap (linked n (block + 24) (write m block (block + 24))) {x = block + 24 * 0} {y = block}
      (omega arith)
    ∙ link_blocks_below n (block + 24) (write m block (block + 24)) block (omega arith)
    ∙ ground arith
link_blocks_inside (suc n) block m (suc i) h =
    ap (linked n (block + 24) (write m block (block + 24))) {x = block + 24 * suc i}
      {y = block + 24 + 24 * i} (omega arith)
    ∙ link_blocks_inside n (block + 24) (write m block (block + 24)) i (omega arith)
    ∙ omega arith

-- Blocks that a buffer of `size` bytes has room for behind the header.
abbrev pub room : ℕ → ℕ
room size = (size - 32) / 24

-- Memory and allocator after `grow` on an empty allocator.
unfoldable pub grown : ℕ → ℕ → Words → Words
grown buf size m =
    write
      (link_blocks block_size block_align (room size) (buf + 32)
        (new_region block_size block_align buf (room size) (buf + 32) m))
      (buf + 24) 0

abbrev pub grown_slab : ℕ → ℕ → SlabAlloc
grown_slab buf size = record { regions = buf; total = room size; free = room size }

align_header : align_up 32 8 ≡ 32
unfolding align_up
align_header = refl

module _ (buf size : ℕ) (m : Words) (pos : 0 < buf) (aligned : buf % 8 ≡ 0) (big : 56 ≤ size)
    (fits : size < 2 ^ 64) where
  pub grow_runs :
      grow block_size block_align buf size m empty_slab
      ≡ done (grown buf size m, grown_slab buf size)
  unfolding grow grown is_aligned
  grow_runs = rw align_header (ground (arith, pos, aligned, big, fits))

  header : Words
  header = new_region block_size block_align buf (room size) (buf + 32) m

  grown_below : (p : ℕ) → p < buf + 24 → grown buf size m p ≡ header p
  unfolding grown header write
  grown_below p h = ground (arith, link_blocks_below (room size) (buf + 32) header p (omega arith))

  pub grown-IsSlab : IsSlab buf (room size) 0 (grown buf size m) (grown_slab buf size)
  grown-IsSlab = record {
    one = refl;
    pos = pos;
    small = omega (arith, fits);
    count = omega arith;
    free_word =
        grown_below (buf + 8) (omega arith) ∙ unfold header new_region write in ground arith;
    first_word =
        grown_below (buf + 16) (omega arith) ∙ unfold header new_region write in ground arith;
    chain = λ i a b.
        unfold grown header write in
        ground (arith, link_blocks_inside (room size) (buf + 32) header i b);
  }

  -- The loop that links the blocks stores through the address behind the last block as well: after
  -- `grow`, the word behind the last block is 0 whatever it was before.
  grown_behind : grown buf size m (slot buf (room size)) ≡ 0
  grown_behind =
      unfold grown header write in ground (arith, link_blocks_end (room size) (buf + 32) header)

-- `grow` on an empty allocator with an aligned buffer that has room for a block: it passes its
-- assertions, and all the blocks that fit behind the header are then free, in order of address.
pub grow-IsSlab :
    (buf size : ℕ) (m : Words)
    → 0 < buf
    → buf % 8 ≡ 0
    → 56 ≤ size
    → size < 2 ^ 64
    → (grow block_size block_align buf size m empty_slab
        ≡ done (grown buf size m, grown_slab buf size))
      × IsSlab buf (room size) 0 (grown buf size m) (grown_slab buf size)
grow-IsSlab buf size m pos aligned big fits =
    (grow_runs buf size m pos aligned big fits, grown-IsSlab buf size m pos aligned big fits)

-- A buffer of exactly `region_size(n)` bytes is overrun: `grow` zeroes the word behind its end.
pub grow_overruns :
    (buf n : ℕ) (m : Words)
    → 0 < buf
    → buf % 8 ≡ 0
    → 1 ≤ n
    → n < 2 ^ 32
    → let size = region_size block_size block_align n in
      (grow block_size block_align buf size m empty_slab
        ≡ done (grown buf size m, grown_slab buf size))
      × (grown buf size m (buf + size) ≡ 0)
unfolding region_size
grow_overruns buf n m pos aligned h l = rw align_header (
  grow_runs buf (32 + n * 24) m pos aligned (omega arith) (omega arith),
  ap (grown buf (32 + n * 24) m) {x = buf + (32 + n * 24)} {y = slot buf (room (32 + n * 24))}
        (omega arith)
      ∙ grown_behind buf (32 + n * 24) m pos aligned (omega arith) (omega arith),
)
