-- ===== src/Pmm/Alloc.antt =====
-- `alloc` as a whole: what a page-aligned request gives.
use octiron.Base.{
  ℕ, ◌+◌, ◌-◌, ◌*◌, ◌/◌, ◌%◌, ◌^◌, ◌≤◌, ◌<◌, ◌≡◌, ◌⊎◌, inl, inr, refl, ap, ◌∙◌, true, false, ◌||◌,
  ltb, ◌==◌, done, Option, none, some, List, [], ◌∷◌, map, length, arith, Bool-cases, ◌>>=◌, ltb→lt,
}
use octiron.Number.{sub64}
use octiron.Number.Align.{align_up_page}
use octiron.Errors.{ErrorCode, of_code}
use octiron.Words.{Words}
use octiron.Slab.{SlabAlloc, free_count}
use octiron.Slab.Free.{IsSlab, IsSlab-frame, slot}
use octiron.Pmm.{Region, Pmm}
use octiron.Pmm.Take.{scan, finish, alloc, alloc_aligned}
use octiron.Pmm.Spec.{Frames, view, give, unused_bytes}
use octiron.Pmm.Invariant.{IsPmm, SameBlocks, buf_end, own_slot}
use octiron.Pmm.Scan.{ScanResult}
use octiron.Pmm.Loop.{scan-ScanResult}

-- Nothing is given when all that is unused is less than the request.
give_short : (size : ℕ) (fs : List Frames) → unused_bytes fs < size → give size fs ≡ none
unfolding give
give_short size [] h = refl
give_short size (f ∷ fs) h = ground (arith, give_short size fs (omega (arith, h)))

-- What is given is no longer unused.
abbrev Conserves : ℕ → List Frames → Option (ℕ × List Frames) → Type 0
Conserves size fs none = Unit {0}
Conserves size fs (some (a, fs')) = unused_bytes fs' + size ≡ unused_bytes fs

Conserves-behind :
    (size : ℕ) (f : Frames) (fs : List Frames) (g : Option (ℕ × List Frames))
    → Conserves size fs g
    → Conserves size (f ∷ fs) (elim g [ none ↦ none | some (a, fs') ↦ some (a, f ∷ fs') ])
Conserves-behind size f fs none h = tt
Conserves-behind size f fs (some (a, fs')) h = omega (arith, h)

give-Conserves : (size : ℕ) (fs : List Frames) → Conserves size fs (give size fs)
unfolding give
give-Conserves size [] = tt
give-Conserves size (f ∷ fs) = elim (Bool-cases (ltb f.unused size || f.unused == 0)) [
  | inl e ↦ rw e (Conserves-behind size f fs (give size fs) (give-Conserves size fs))
  | inr e ↦ rw e (ground arith)
]

-- The size that is searched for.
abbrev pub pages : ℕ → ℕ
pages size = (size + 4095) / 4096 * 4096

-- A request that is served.
pub record Allocated (buf size : ℕ) (s : Pmm) (a : ℕ) (fs : List Frames) : Type 0 where
  pub after : Pmm
  pub runs : alloc size false s ≡ done (of_code ErrorCode.success, some a, after)
  pub well_formed : IsPmm buf after
  pub frames : map view after.regions ≡ fs
  pub counted : after.free_bytes + pages size ≡ s.free_bytes
  pub same_total : after.total_bytes ≡ s.total_bytes
  pub page : a % 4096 ≡ 0
  pub above_zero : 0 < a
  pub zeroed : (p : ℕ) → a ≤ p → p < a + pages size → after.mem p ≡ 0
  pub elsewhere :
      (p : ℕ)
      → (p < buf) ⊎ (buf_end buf ≤ p)
      → (p < a) ⊎ (a + pages size ≤ p)
      → after.mem p ≡ s.mem p

abbrev pub AllocResult : ℕ → ℕ → Pmm → Option (ℕ × List Frames) → Type 0
AllocResult buf size s none =
    alloc size false s ≡ done (of_code ErrorCode.pmm_out_of_mem, some 0, s)
AllocResult buf size s (some (a, fs)) = Allocated buf size s a fs

module _ (buf size : ℕ) (s : Pmm) (v : IsPmm buf s) (small : size + 4096 ≤ 2 ^ 64) where
  -- The guards in front of the loop.
  reaches_scan :
      (ltb s.free_bytes (pages size)) ≡ false
      → alloc size false s ≡ (
          scan (pages size) 4096 s.regions s.mem s.block_allocator >>= λ found.
          done (finish (pages size) s found))
  unfolding alloc alloc_aligned free_count
  reaches_scan e = rw (align_up_page size small) (ground (arith, v.policy, v.slab.count, v.few))

  refuses :
      ltb s.free_bytes (pages size) ≡ true
      → alloc size false s ≡ done (of_code ErrorCode.pmm_out_of_mem, some 0, s)
  unfolding alloc alloc_aligned
  refuses e = rw (align_up_page size small) (ground arith)

  less :
      ltb s.free_bytes (pages size) ≡ false
      → (pages size ≤ s.free_bytes) × (sub64 s.free_bytes (pages size) ≡ s.free_bytes - pages size)
  less e = let le : pages size ≤ s.free_bytes = ground arith in (le, omega (arith, v.small))

  slab_after :
      (slab : SlabAlloc)
      → slab ≡ s.block_allocator
      → (left : List Region) → length left ≡ length s.regions
      → (m' : Words) (k : ℕ) → k < 0 + length s.regions
      → SameBlocks buf (own_slot buf k) s.mem m'
      → IsSlab buf 64 (2 * length left) m' slab
  slab_after slab e left n m' k below same =
      rw (e, n)
        (IsSlab-frame m' v.slab (same (buf + 8) (omega arith) (omega arith) (inl (omega arith)))
          (same (buf + 16) (omega arith) (omega arith) (inl (omega arith)))
          λ i h l. same (slot buf i) (omega arith) (omega arith) (inr (omega arith)))

  answer :
      (g : Option (ℕ × List Frames))
      → Conserves (pages size) (map view s.regions) g
      → (ltb s.free_bytes (pages size)) ≡ false
      → ScanResult buf 0
          (pages size)
          s.mem
          s.block_allocator
          s.regions
          g
          (scan (pages size) 4096 s.regions s.mem s.block_allocator)
      → AllocResult buf size s g
  answer none c e h = reaches_scan e ∙ unfold finish in rw h
  answer (some (a, fs)) c e h = record {
    after = record s {
      free_bytes = sub64 s.free_bytes (pages size);
      regions = h.left;
      block_allocator = h.taken.slab;
      mem = h.taken.mem;
    };
    runs = reaches_scan e ∙ unfold finish in rw h.runs (rw h.at_lowest);
    well_formed = record {
      policy = v.policy;
      slab = slab_after h.taken.slab h.same_slab h.left h.count h.taken.mem h.k h.k_below h.same;
      few = omega (arith, h.count, v.few);
      regions = h.regions;
      total = omega (arith, c, ap unused_bytes h.frames, v.total, less e);
      small = omega (arith, v.small, less e);
    };
    frames = h.frames;
    counted = omega (arith, less e);
    same_total = refl;
    page = h.page;
    above_zero = h.above_zero;
    zeroed = h.zeroed;
    elsewhere = h.elsewhere;
  }

  -- `alloc` under the invariant, with a result pointer that is not null and a size that does not
  -- overflow when it is rounded up to pages, on every path: a request is served exactly if a region
  -- that is not used up has that much left, from the first such region and from its low end, with
  -- zeroed memory at a page boundary; the invariant holds again, and no other memory outside
  -- `BLOCK_BUF` is written. Otherwise the error is `PMM_OUT_OF_MEM`, 0 is stored and nothing changes.
  -- No path faults, asserts or hangs.
  pub alloc-AllocResult : AllocResult buf size s (give (pages size) (map view s.regions))
  alloc-AllocResult = elim (Bool-cases (ltb s.free_bytes (pages size))) [
    | inl short ↦
        rw (give_short (pages size) (map view s.regions) (omega (arith, v.total, ltb→lt _ _ short)))
          (refuses short)
    | inr e ↦ answer _ (give-Conserves (pages size) (map view s.regions)) e (
        scan-ScanResult buf 0 (pages size) s.mem s.block_allocator s.regions (omega (arith, v.few))
          (omega arith) v.regions)
  ]
