-- ===== src/Pmm/Loop.antt =====
-- `scan` refines the specification `give`.
use octiron.Base.{
  ℕ, suc, ◌+◌, ◌-◌, ◌%◌, ◌≤◌, ◌≡◌, inl, inr, refl, ap, false, ◌||◌, ltb, ◌==◌, Run, done, Option,
  none, some, List, [], ◌∷◌, map, length, arith, Bool-cases, ◌>>=◌,
}
use octiron.Words.{Words}
use octiron.Slab.{SlabAlloc}
use octiron.Pmm.{Region}
use octiron.Pmm.Take.{Taken, take_block, scan}
use octiron.Pmm.Spec.{Frames, view, give}
use octiron.Pmm.Invariant.{IsRegion, IsOneBlock, AreRegions, AreRegions-frame, IsRegion-frame}
use octiron.Pmm.Scan.{
  Scanned, ScanResult, skip_same, lowest, rest_of, taken_from, take_block_runs, SameBlocks-after,
  after_zero, after_elsewhere, rest-IsRegion,
}

-- How `scan` and `give` go on behind a region that they pass over.
abbrev behind : Region → Run (Option (Taken × List Region)) → Run (Option (Taken × List Region))
behind r out =
    out >>= λ found. elim found [ none ↦ done none | some (t, rs') ↦ done (some (t, r ∷ rs')) ]

abbrev given_behind : Region → Option (ℕ × List Frames) → Option (ℕ × List Frames)
given_behind r g = elim g [ none ↦ none | some (a, fs) ↦ some (a, view r ∷ fs) ]

module _ (buf i size : ℕ) (m : Words) (slab : SlabAlloc) (r : Region) (rs : List Region)
    (few : i + length (r ∷ rs) ≤ 16) (v : IsRegion buf m i r) where
  skip :
      (g : Option (ℕ × List Frames)) (out : Run (Option (Taken × List Region)))
      → ScanResult buf (suc i) size m slab rs g out
      → ScanResult buf i size m slab (r ∷ rs) (given_behind r g) (behind r out)
  skip none out h = rw h
  skip (some (a, fs)) out h = record {
    taken = h.taken;
    left = r ∷ h.left;
    runs = rw h.runs;
    at_lowest = h.at_lowest;
    same_slab = h.same_slab;
    frames = ap (λ (l : List Frames). view r ∷ l) h.frames;
    count = ap suc h.count;
    regions = (
      IsRegion-frame buf i h.k m h.taken.mem r (omega (arith, h.k_from)) (omega (arith, few)) h.same
          v,
      h.regions,
    );
    k = h.k;
    k_from = omega (arith, h.k_from);
    k_below = omega (arith, h.k_below);
    same = h.same;
    zeroed = h.zeroed;
    elsewhere = h.elsewhere;
    page = h.page;
    above_zero = h.above_zero;
  }

  take :
      IsOneBlock buf m i r
      → AreRegions buf m (suc i) rs
      → size % 4096 ≡ 0
      → size ≤ r.free_bytes
      → Scanned buf i size m slab
          (r ∷ rs)
          (lowest r)
          (record (view r) { unused = r.free_bytes - size } ∷ map view rs)
          (take_block size 4096 r m slab >>= λ t. done (some (t, t.region ∷ rs)))
  take b vs whole fits = record {
    taken = taken_from r.free_blocks size r m slab;
    left = rest_of size r ∷ rs;
    runs = rw (take_block_runs v b whole fits slab);
    at_lowest = refl;
    same_slab = refl;
    frames = refl;
    count = refl;
    regions = (
      rest-IsRegion v b whole fits slab (omega (arith, few)),
      AreRegions-frame buf (suc i) i m _ rs (omega arith) (omega (arith, few))
          (SameBlocks-after v b whole fits slab) vs,
    );
    k = i;
    k_from = omega arith;
    k_below = omega arith;
    same = SameBlocks-after v b whole fits slab;
    zeroed = after_zero v b whole fits slab;
    elsewhere = λ p. after_elsewhere v b whole fits slab p (omega (arith, few));
    page = omega (arith, v.base_aligned, v.length_aligned, v.unused_aligned, v.bounded);
    above_zero = omega (arith, v.above_zero, v.bounded);
  }

-- A region that is not passed over has its one block.
has_block :
    (buf i size : ℕ) (m : Words) (r : Region)
    → IsRegion buf m i r
    → (ltb r.free_bytes size || r.free_bytes == 0) ≡ false
    → IsOneBlock buf m i r × (size ≤ r.free_bytes)
has_block buf i size m r v e = elim v.blocks [
  | inl b ↦ (b, ground arith)
  | inr z ↦ absurd (ground (arith, z.used_up))
]

-- The loop over the regions serves a page-aligned request as the specification says, without
-- fault or assertion, and keeps every region well-formed.
pub scan-ScanResult :
    (buf i size : ℕ) (m : Words) (slab : SlabAlloc) (rs : List Region)
    → i + length rs ≤ 16
    → size % 4096 ≡ 0
    → AreRegions buf m i rs
    → ScanResult buf i size m slab rs (give size (map view rs)) (scan size 4096 rs m slab)
unfolding give scan
scan-ScanResult buf i size m slab [] few whole v = refl
scan-ScanResult buf i size m slab (r ∷ rs) few whole v =
    rw (skip_same buf i size m r v.0)
      (elim (Bool-cases (ltb r.free_bytes size || r.free_bytes == 0)) [
        | inl e ↦ rw e (
            skip buf i size m slab r rs few v.0 _ _
              (scan-ScanResult buf (suc i) size m slab rs (omega (arith, few)) whole v.1))
        | inr e ↦ rw e (
            take buf i size m slab r rs few v.0 (has_block buf i size m r v.0 e).0 v.1 whole
              (has_block buf i size m r v.0 e).1)
      ])
