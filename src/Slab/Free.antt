-- ===== src/Slab/Free.antt =====
-- `slab_alloc<memory_block>` with one region: which blocks are handed out, and in which order.
use octiron.Base.{
  ◌∙◌, ℕ, suc, ◌+◌, ◌-◌, ◌*◌, ◌≤◌, ◌<◌, ◌≡◌, ◌⊎◌, arith, ◌^◌, done, ◌==◌, if◌then◌else◌, leb, ltb,
  ◌&&◌,
}
use octiron.Number.{sub64}
use octiron.Words.{Words, write, fill_zero}
use octiron.Slab.{SlabAlloc, alloc, find_region, dequeue}

-- `sizeof(memory_block)` and its alignment.
abbrev pub block_size : ℕ
block_size = 24

abbrev pub block_align : ℕ
block_align = 8

-- The address of block `i` of the region at `buf`.
abbrev pub slot : ℕ → ℕ → ℕ
slot buf i = buf + 32 + 24 * i

-- The allocator has the one region at `buf` with `cap` blocks, of which the first `used` are out.
pub record IsSlab (buf cap used : ℕ) (m : Words) (s : SlabAlloc) : Type 0 where
  pub one : s.regions ≡ buf
  pub pos : 0 < buf
  pub small : cap < 2 ^ 64
  pub count : s.free + used ≡ cap
  pub free_word : m (buf + 8) ≡ s.free
  pub first_word : m (buf + 16) ≡ slot buf used
  pub chain : (i : ℕ) → used ≤ i → i < cap → m (slot buf i) ≡ slot buf (suc i)

-- Memory after block `used` has been taken.
unfoldable pub taken : ℕ → ℕ → Words → SlabAlloc → Words
taken buf used m s =
    fill_zero (write (write m (buf + 16) (slot buf (suc used))) (buf + 8) (s.free - 1))
      (slot buf used) block_size

abbrev pub one_less : SlabAlloc → SlabAlloc
one_less s = record s { free = s.free - 1 }

module _ {buf cap used : ℕ} {m : Words} {s : SlabAlloc} (v : IsSlab buf cap used m s) where
  find_region_runs :
      used < cap → find_region block_size block_align (suc s.total) m s.regions ≡ done buf
  unfolding find_region
  find_region_runs h = ground (arith, v.one, v.pos, v.free_word, v.count)

  dequeue_runs :
      used < cap
      → dequeue block_size block_align buf m s
        ≡ done (slot buf used, taken buf used m s, one_less s)
  unfolding dequeue taken
  dequeue_runs h =
      let less : sub64 s.free 1 ≡ s.free - 1 = omega (arith, v.count, v.small) in
      rw (v.first_word, v.chain used (omega arith) h, v.free_word, less) (ground arith)

  pub alloc_runs :
      used < cap
      → alloc block_size block_align m s ≡ done (slot buf used, taken buf used m s, one_less s)
  unfolding alloc
  alloc_runs h = rw (find_region_runs h) (ground (arith, v.count, v.pos, dequeue_runs h))

  -- Only the header's two counters and the block itself change.
  pub taken_elsewhere :
      (p : ℕ)
      → (p < buf + 8) ⊎ (buf + 16 < p)
      → (p < slot buf used) ⊎ (slot buf (suc used) ≤ p)
      → taken buf used m s p ≡ m p
  unfolding taken write fill_zero
  taken_elsewhere p h l = ground arith

  pub taken-IsSlab : used < cap → IsSlab buf cap (suc used) (taken buf used m s) (one_less s)
  unfolding taken write fill_zero
  taken-IsSlab h = record {
    one = v.one;
    pos = v.pos;
    small = v.small;
    count = omega (arith, v.count);
    free_word = ground arith;
    first_word = ground arith;
    chain = λ i a b. ground (arith, v.chain i (omega arith) b);
  }

  -- Handing out: with a block left, `alloc` gives block `used`, zeroes its three words, writes no
  -- other word than the region's two counters, and the region is then one block further.
  pub alloc-IsSlab :
      (p : ℕ)
      → used < cap
      → (alloc block_size block_align m s ≡ done (slot buf used, taken buf used m s, one_less s))
        × IsSlab buf cap (suc used) (taken buf used m s) (one_less s)
        × (taken buf used m s p ≡ (
            if leb (slot buf used) p && ltb p (slot buf (suc used))
            then 0
            else if p == buf + 8
            then s.free - 1
            else if p == buf + 16
            then slot buf (suc used)
            else m p))
  unfolding taken write fill_zero
  alloc-IsSlab p h = (alloc_runs h, taken-IsSlab h, ground arith)

  -- When every block is out, `alloc` returns `nullptr` and changes nothing.
  pub alloc_exhausted : used ≡ cap → alloc block_size block_align m s ≡ done (0, m, s)
  unfolding alloc
  alloc_exhausted h = ground (arith, v.count)

-- The region does not depend on other memory, nor on the blocks that are out.
pub IsSlab-frame :
    {buf cap used : ℕ} {m : Words} {s : SlabAlloc} (m' : Words)
    → IsSlab buf cap used m s
    → m' (buf + 8) ≡ m (buf + 8)
    → m' (buf + 16) ≡ m (buf + 16)
    → ((i : ℕ) → used ≤ i → i < cap → m' (slot buf i) ≡ m (slot buf i))
    → IsSlab buf cap used m' s
IsSlab-frame m' v a b same = record {
  one = v.one;
  pos = v.pos;
  small = v.small;
  count = v.count;
  free_word = a ∙ v.free_word;
  first_word = b ∙ v.first_word;
  chain = λ i h l. same i h l ∙ v.chain i h l;
}
