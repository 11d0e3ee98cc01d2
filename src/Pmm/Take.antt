-- ===== src/Pmm/Take.antt =====
-- kernel/src/pmm.cpp: the allocation routines. The body of the `while` loop over a region's blocks
-- ends in `return` on every path (the first `if` has no `continue`), so the loop is its first round.
use octiron.Base.{
  ℕ, ◌+◌, Bool, true, false, ◌&&◌, ◌||◌, not, ltb, ◌==◌, if◌then◌else◌, Run, done, fault, ◌>>=◌,
  ◌>>◌, Option, none, some, List, [], ◌∷◌, bit_and,
}
use octiron.Number.{align_up, sub64, u64}
use octiron.Errors.{Error, ErrorCode, of_code, is_ok}
use octiron.Words.{Words, write, fill_zero}
use octiron.Slab
use octiron.Slab.{SlabAlloc, assert}
use octiron.Slab.Free.{block_size, block_align}
use octiron.Pmm.{Policy, Region, Pmm, page_size}

-- What an allocation changes besides the counters of the manager.
pub record Taken : Type 0 where
  pub address : ℕ
  pub region : Region
  pub mem : Words
  pub slab : SlabAlloc

-- A block in front and one behind are left over: a block is taken for the latter, filled in, and
-- linked to nothing.
unfoldable pub keep_both :
    (curr curr_end aligned_base used_end offset : ℕ)
    → Region
    → Words
    → SlabAlloc
    → Run (Region × Words × SlabAlloc)
keep_both curr curr_end aligned_base used_end offset region m slab =
    if curr == 0 then fault else (do
      let m₁ = write m (curr + 8) offset
      (extra, m₂, slab') ← Slab.alloc block_size block_align m₁ slab
      assert (not (extra == 0))
      let m₃ = write (write m₂ extra used_end) (extra + 8) (sub64 curr_end used_end)
      done (region, write m₃ (extra + 16) (m₃ (curr + 16)), slab'))

unfoldable pub keep_front :
    (curr offset : ℕ) → Region → Words → SlabAlloc → Run (Region × Words × SlabAlloc)
keep_front curr offset region m slab =
    if curr == 0 then fault else done (region, write m (curr + 8) offset, slab)

unfoldable pub keep_back :
    (curr curr_end used_end : ℕ) → Region → Words → SlabAlloc → Run (Region × Words × SlabAlloc)
keep_back curr curr_end used_end region m slab =
    if curr == 0
    then fault
    else done (region, write (write m curr used_end) (curr + 8) (sub64 curr_end used_end), slab)

-- Nothing is left over. With a block before, `slab_alloc::free` is called and its result asserted.
unfoldable pub unlink :
    (prev curr : ℕ) → Region → Words → SlabAlloc → Run (Region × Words × SlabAlloc)
unlink prev curr region m slab =
    if curr == 0
    then fault
    else if prev == 0
    then done (record region { free_blocks = m (curr + 16) }, m, slab)
    else (do
      assert (is_ok (Slab.free curr))
      done (region, write m (prev + 16) (m (curr + 16)), slab))

-- The body of the `while` loop for the first block of the region.
unfoldable pub take_block : (size alignment : ℕ) → Region → Words → SlabAlloc → Run Taken
unfolding keep_both keep_front keep_back unlink
take_block size alignment region m slab =
    let first = region.free_blocks in
    let curr_base = m first in
    let curr_end = u64 (curr_base + m (first + 8)) in
    let aligned_base = align_up curr_base alignment in
    let used_end = u64 (aligned_base + size) in
    let misfit = ltb curr_end used_end in
    let prev : ℕ = if misfit then first else 0 in
    let curr : ℕ = if misfit then m (first + 16) else first in
    let offset = sub64 aligned_base curr_base in
    let exists_preceeding = not (curr_base == aligned_base) in
    let exists_postceeding = ltb used_end curr_end in
    do
      (region', m', slab') ←
          if exists_preceeding && exists_postceeding
          then keep_both curr curr_end aligned_base used_end offset region m slab
          else if exists_preceeding
          then keep_front curr offset region m slab
          else if exists_postceeding
          then keep_back curr curr_end used_end region m slab
          else unlink prev curr region m slab
      done (record {
        address = aligned_base;
        region = record region' { free_bytes = sub64 region'.free_bytes size };
        mem = fill_zero m' aligned_base size;
        slab = slab';
      })

-- The loop over the regions: nothing, or what was taken and the list with that region updated.
unfoldable pub scan :
    (size alignment : ℕ) → List Region → Words → SlabAlloc → Run (Option (Taken × List Region))
unfolding take_block
scan size alignment [] m slab = done none
scan size alignment (r ∷ rs) m slab =
    let rest = scan size alignment rs m slab in
    if ltb r.free_bytes size || r.free_blocks == 0
    then (do
      found ← rest
      elim found [ none ↦ done none | some (t, rs') ↦ done (some (t, r ∷ rs')) ])
    else (do t ← take_block size alignment r m slab; done (some (t, t.region ∷ rs)))

unfoldable pub is_first_fit : Policy → Bool
is_first_fit Policy.first_fit = true
is_first_fit _ = false

unfoldable pub finish : (size : ℕ) → Pmm → Option (Taken × List Region) → Error × Option ℕ × Pmm
finish size s none = (of_code ErrorCode.pmm_out_of_mem, some 0, s)
finish size s (some (t, rs)) = (
  of_code ErrorCode.success,
  some t.address,
  record s {
    free_bytes = sub64 s.free_bytes size;
    regions = rs;
    block_allocator = t.slab;
    mem = t.mem;
  },
)

-- The result, what is stored through `ret` (nothing if it is null), and the new state.
unfoldable pub alloc_aligned :
    (size alignment : ℕ) (ret_is_null : Bool) → Pmm → Run (Error × Option ℕ × Pmm)
unfolding scan is_first_fit finish
alloc_aligned requested alignment ret_is_null s =
    let size = align_up requested page_size in
    if ret_is_null
    then done (of_code ErrorCode.null_argument, none, s)
    else if ltb alignment page_size || not (bit_and alignment (sub64 alignment 1) == 0)
    then done (of_code ErrorCode.pmm_bad_align, some 0, s)
    else if ltb s.free_bytes size
    then done (of_code ErrorCode.pmm_out_of_mem, some 0, s)
    else (do
      assert (not (ltb (Slab.free_count s.block_allocator) 16))
      assert (is_first_fit s.pol)
      found ← scan size alignment s.regions s.mem s.block_allocator
      done (finish size s found))

unfoldable pub alloc : (size : ℕ) (ret_is_null : Bool) → Pmm → Run (Error × Option ℕ × Pmm)
alloc size ret_is_null s = alloc_aligned size page_size ret_is_null s

-- The value of `ret` after the assertion; `alloc_aligned` has stored to it.
unfoldable pub alloc_aligned_noerr : (size alignment : ℕ) → Pmm → Run (ℕ × Pmm)
alloc_aligned_noerr size alignment s = do
  (err, ret, s') ← alloc_aligned size alignment false s
  assert (is_ok err)
  elim ret [ none ↦ fault | some pa ↦ done (pa, s') ]

unfoldable pub alloc_noerr : (size : ℕ) → Pmm → Run (ℕ × Pmm)
unfolding alloc_aligned_noerr
alloc_noerr size s = alloc_aligned_noerr size page_size s

-- Prints that it is not implemented, and reports success.
unfoldable pub free : (ret : ℕ) → Pmm → Error × Pmm
free ret s = (of_code ErrorCode.success, s)

unfoldable pub total_memory : Pmm → ℕ
total_memory s = s.total_bytes

unfoldable pub free_memory : Pmm → ℕ
free_memory s = s.free_bytes
