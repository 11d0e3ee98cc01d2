-- ===== src/Pmm/Add.antt =====
-- `initialize` and `add_region`: what is accepted, and what the accepted region becomes.
use octiron.Base.{
  ℕ, suc, ◌+◌, ◌-◌, ◌*◌, ◌/◌, ◌%◌, ◌^◌, ◌≤◌, ◌<◌, ◌≡◌, ◌⊎◌, inl, ap, false, leb, ◌==◌,
  if◌then◌else◌, done, [], ◌∷◌, ◌++◌, length, arith, length-append, subst,
}
use octiron.Number.{sub64, u64}
use octiron.Number.Align.{align_up_page, align_down_page}
use octiron.Errors.{ErrorCode, of_code}
use octiron.Words.{Words, write}
use octiron.Slab.Free.{
  IsSlab, IsSlab-frame, slot, taken, one_less, alloc_runs, taken-IsSlab, taken_elsewhere,
}
use octiron.Pmm.{Region, Pmm, is_managed, install, add_region}
use octiron.Pmm.Invariant.{
  IsPmm, IsRegion, OwnSame, buf_end, AreRegions-append, unused_bytes-append,
}

module _ (buf a size : ℕ) (s : Pmm) (v : IsPmm buf s) (room : length s.regions < 16) where
  -- The blocks handed out so far.
  abbrev pub used : ℕ
  used = 2 * length s.regions

  unfoldable pub once : Words
  once = taken buf used s.mem s.block_allocator

  unfoldable pub twice : Words
  unfolding once
  twice = taken buf (suc used) once (one_less s.block_allocator)

  once-IsSlab : IsSlab buf 64 (suc used) once (one_less s.block_allocator)
  unfolding once
  once-IsSlab = taken-IsSlab v.slab (omega arith)

  twice-IsSlab : IsSlab buf 64 (suc (suc used)) twice (one_less (one_less s.block_allocator))
  unfolding twice
  twice-IsSlab = taken-IsSlab once-IsSlab (omega arith)

  -- The manager after the region has been entered.
  abbrev pub fresh : Region
  fresh = record { base = a; length = size; free_bytes = size; free_blocks = slot buf (suc used) }

  unfoldable pub installed : Pmm
  installed = record {
    pol = s.pol;
    total_bytes = u64 (s.total_bytes + size);
    free_bytes = u64 (s.free_bytes + size);
    regions = s.regions ++ fresh ∷ [];
    block_allocator = one_less (one_less s.block_allocator);
    mem =
        write (write (write twice (slot buf (suc used)) a) (slot buf (suc used) + 8) size)
          (slot buf (suc used) + 16) 0;
  }

  pub install_runs : install a size s ≡ done (of_code ErrorCode.success, installed)
  unfolding install installed once twice
  install_runs =
      let first : (slot buf used == 0) ≡ false = ground arith in
      let second : (slot buf (suc used) == 0) ≡ false = ground arith in
      rw (alloc_runs v.slab (omega arith), first)
        (rw (alloc_runs once-IsSlab (omega arith), second))

  -- A word of an earlier block is where it was.
  installed_own : (k : ℕ) → k < length s.regions → OwnSame buf k s.mem installed.mem
  unfolding installed write twice once
  installed_own k below p h l =
      ground (arith, taken_elsewhere once-IsSlab p, taken_elsewhere v.slab p)

  installed-IsSlab : IsSlab buf 64 (suc (suc used)) installed.mem installed.block_allocator
  unfolding installed write
  installed-IsSlab =
      IsSlab-frame installed.mem twice-IsSlab (ground arith) (ground arith) λ i h l. ground arith

  pub installed-IsRegion :
      0 < a
      → a % 4096 ≡ 0
      → size % 4096 ≡ 0
      → 0 < size
      → a + size < 2 ^ 64
      → (a + size ≤ buf) ⊎ (buf_end buf ≤ a)
      → IsRegion buf installed.mem (length s.regions) fresh
  unfolding installed write
  installed-IsRegion pos aligned whole nonzero fits apart = record {
    above_zero = pos;
    base_aligned = aligned;
    length_aligned = whole;
    unused_aligned = whole;
    no_wrap = fits;
    bounded = omega arith;
    apart = apart;
    blocks = inl (record {
      unused = nonzero;
      listed = ap (slot buf) (omega arith);
      block_base = ground arith;
      block_length = ground arith;
      block_next = ground arith;
    });
  }

  pub installed-IsPmm :
      IsRegion buf installed.mem (length s.regions) fresh
      → s.free_bytes + size < 2 ^ 64
      → IsPmm buf installed
  unfolding installed
  installed-IsPmm new fits = record {
    policy = v.policy;
    slab =
        subst (λ u. IsSlab buf 64 u installed.mem installed.block_allocator)
          (omega (arith, length-append s.regions (fresh ∷ []))) installed-IsSlab;
    few = omega (arith, length-append s.regions (fresh ∷ []));
    regions =
        AreRegions-append buf 0 (length s.regions) s.mem installed.mem s.regions fresh (omega arith)
          installed_own v.regions new;
    total = omega (arith, v.total, fits, unused_bytes-append s.regions fresh);
    small = omega arith;
  }

-- The page-aligned part of a region.
abbrev pub up : ℕ → ℕ
up base = (base + 4095) / 4096 * 4096

abbrev pub inner : ℕ → ℕ → ℕ
inner base size = (size - (up base - base)) / 4096 * 4096

-- `add_region` on every path, for a region that does not end at the top of the address space and that
-- reaches a page boundary: the guards in their order, on the first whole page `up` of the region and
-- the length `inner` of its whole pages. Every refusal leaves the manager as it was.
pub add_region_guards :
    (base size : ℕ) (s : Pmm)
    → base + size + 4096 ≤ 2 ^ 64
    → up base ≤ base + size
    → add_region base size s ≡ (
        if base == 0
        then done (of_code ErrorCode.null_argument, s)
        else if leb 16 (length s.regions)
        then done (of_code ErrorCode.pmm_region_list_full, s)
        else if inner base size == 0
        then done (of_code ErrorCode.pmm_region_too_small, s)
        else if is_managed (up base) s.regions
        then done (of_code ErrorCode.pmm_region_managed, s)
        else install (up base) (inner base size) s)
unfolding add_region
add_region_guards base size s fits reach =
    rw
      (
        align_up_page base (omega arith),
        padding,
        align_down_page (size - (up base - base)) (omega arith),
      )
      (ground arith)
  where
    padding : sub64 size (sub64 (up base) base) ≡ size - (up base - base)
    padding = omega arith
