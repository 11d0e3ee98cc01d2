-- ===== src/Slab/Tests.antt =====
-- The slab allocator on a buffer with room for three blocks.
use octiron.Base.{ℕ, ◌+◌, ◌≡◌, refl, done, arith}
use octiron.Words.{Words}
use octiron.Slab.{SlabAlloc, empty_slab, grow, alloc, region_size}
use octiron.Slab.Free.{IsSlab, block_size, block_align, taken, one_less, alloc-IsSlab}
use octiron.Slab.Grow.{grown, grown_slab, grow-IsSlab, grow_overruns}

abbrev memory : Words
memory p = 7

abbrev three_blocks : ℕ
three_blocks = 104

grow-IsSlab_example :
    (grow block_size block_align 0x8000 three_blocks memory empty_slab
      ≡ done (grown 0x8000 three_blocks memory, grown_slab 0x8000 three_blocks))
    × IsSlab 0x8000 3 0 (grown 0x8000 three_blocks memory) (grown_slab 0x8000 three_blocks)
grow-IsSlab_example =
    grow-IsSlab 0x8000 three_blocks memory (omega arith) refl (omega arith) (omega arith)

grow_overruns_example :
    (grow block_size block_align 0x8000 (region_size block_size block_align 3) memory empty_slab
      ≡ done (
        grown 0x8000 (region_size block_size block_align 3) memory,
        grown_slab 0x8000 (region_size block_size block_align 3),
      ))
    × (grown 0x8000
          (region_size block_size block_align 3)
          memory
          (0x8000 + region_size block_size block_align 3)
        ≡ 0)
grow_overruns_example = grow_overruns 0x8000 3 memory (omega arith) refl (omega arith) (omega arith)

abbrev grown_memory : Words
grown_memory = grown 0x8000 three_blocks memory

abbrev slab : SlabAlloc
slab = grown_slab 0x8000 three_blocks

slab-IsSlab : IsSlab 0x8000 3 0 grown_memory slab
slab-IsSlab =
    (grow-IsSlab 0x8000 three_blocks memory (omega arith) refl (omega arith) (omega arith)).1

alloc-IsSlab_example :
    (alloc block_size block_align grown_memory slab
      ≡ done (0x8020, taken 0x8000 0 grown_memory slab, one_less slab))
    × IsSlab 0x8000 3 1 (taken 0x8000 0 grown_memory slab) (one_less slab)
    × (taken 0x8000 0 grown_memory slab 0x8028 ≡ 0)
alloc-IsSlab_example = alloc-IsSlab slab-IsSlab 0x8028 (omega arith)
