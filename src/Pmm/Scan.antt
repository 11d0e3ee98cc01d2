-- ===== src/Pmm/Scan.antt =====
-- The loops of `alloc_aligned` under the invariant, at page alignment.
use octiron.Base.{
  ℕ, ◌+◌, ◌-◌, ◌%◌, ◌≤◌, ◌<◌, ◌≡◌, ◌⊎◌, inl, inr, ap, ◌∙◌, false, ◌||◌, ltb, ◌==◌, if◌then◌else◌,
  Run, done, Option, none, some, List, map, length, arith, Bool-cases,
}
use octiron.Number.{align_up}
use octiron.Number.Align.{align_up_page}
use octiron.Words.{Words, write, fill_zero}
use octiron.Slab.{SlabAlloc}
use octiron.Pmm.{Region}
use octiron.Pmm.Take.{Taken, take_block}
use octiron.Pmm.Spec.{Frames, view}
use octiron.Pmm.Invariant.{IsRegion, IsOneBlock, AreRegions, SameBlocks, own_slot, buf_end}

-- The lowest unused address of a region.
abbrev pub lowest : Region → ℕ
lowest r = r.base + r.length - r.free_bytes

-- A block of a region after `size` bytes have been taken from its low end.
pub cut : (c a size unused : ℕ) → Words → Words
cut c a size unused m =
    if size == unused then m else write (write m c (a + size)) (c + 8) (unused - size)

abbrev pub rest_of : ℕ → Region → Region
rest_of size r = record r {
  free_bytes = r.free_bytes - size;
  free_blocks = if size == r.free_bytes then 0 else r.free_blocks;
}

abbrev pub taken_from : ℕ → ℕ → Region → Words → SlabAlloc → Taken
taken_from c size r m slab = record {
  address = lowest r;
  region = rest_of size r;
  mem = fill_zero (cut c (lowest r) size r.free_bytes m) (lowest r) size;
  slab = slab;
}

module _ {buf i size : ℕ} {m : Words} {r : Region} (v : IsRegion buf m i r)
    (b : IsOneBlock buf m i r) (whole : size % 4096 ≡ 0) (fits : size ≤ r.free_bytes) where
  aligned : align_up (lowest r) 4096 ≡ lowest r
  aligned =
      align_up_page (lowest r) (omega (arith, v.no_wrap, v.bounded, v.unused_aligned, b.unused))
      ∙ omega (arith, v.base_aligned, v.length_aligned, v.unused_aligned, v.bounded)

  base_word : m r.free_blocks ≡ lowest r
  base_word = ap m b.listed ∙ b.block_base

  length_word : m (r.free_blocks + 8) ≡ r.free_bytes
  length_word = ap (λ (c : ℕ). m (c + 8)) b.listed ∙ b.block_length

  next_word : m (r.free_blocks + 16) ≡ 0
  next_word = ap (λ (c : ℕ). m (c + 16)) b.listed ∙ b.block_next

  pub take_block_runs :
      (slab : SlabAlloc)
      → take_block size 4096 r m slab ≡ done (taken_from r.free_blocks size r m slab)
  unfolding take_block cut
  take_block_runs slab =
      rw (base_word, length_word, next_word, aligned) (ground (arith, v, b, fits))

  abbrev after : SlabAlloc → Words
  after slab = (taken_from r.free_blocks size r m slab).mem

  -- The request is served inside the region, so what is zeroed is not the manager's own.
  pub SameBlocks-after : (slab : SlabAlloc) → SameBlocks buf (own_slot buf i) m (after slab)
  SameBlocks-after slab p h l o =
      unfold cut write fill_zero in ground (arith, v.apart, v.bounded, b.listed, fits)

  pub after_zero :
      (slab : SlabAlloc) (p : ℕ) → lowest r ≤ p → p < lowest r + size → after slab p ≡ 0
  after_zero slab p h l = unfold fill_zero in ground arith

  pub after_elsewhere :
      (slab : SlabAlloc) (p : ℕ)
      → i < 16
      → (p < buf) ⊎ (buf_end buf ≤ p)
      → (p < lowest r) ⊎ (lowest r + size ≤ p)
      → after slab p ≡ m p
  after_elsewhere slab p few h l = unfold cut write fill_zero in ground (arith, b.listed, fits)

  rest-IsOneBlock :
      (slab : SlabAlloc)
      → i < 16
      → (size == r.free_bytes) ≡ false
      → IsOneBlock buf (after slab) i (rest_of size r)
  rest-IsOneBlock slab few e =
      unfold cut write fill_zero in
      record {
        unused = ground (arith, fits);
        listed = ground (arith, b.listed);
        block_base = ground (arith, b.listed, v.apart, v.bounded, fits);
        block_length = ground (arith, b.listed, v.apart, v.bounded, fits);
        block_next = ground (arith, b.listed, b.block_next, v.apart, v.bounded, fits);
      }

  pub rest-IsRegion : (slab : SlabAlloc) → i < 16 → IsRegion buf (after slab) i (rest_of size r)
  rest-IsRegion slab few = record {
    above_zero = v.above_zero;
    base_aligned = v.base_aligned;
    length_aligned = v.length_aligned;
    unused_aligned = omega (arith, v.unused_aligned, whole, fits);
    no_wrap = v.no_wrap;
    bounded = omega (arith, v.bounded);
    apart = v.apart;
    blocks = elim (Bool-cases (size == r.free_bytes)) [
      | inl e ↦ inr (record { used_up = ground arith; no_block = ground arith })
      | inr e ↦ inl (rest-IsOneBlock slab few e)
    ];
  }

-- What `scan` found: the region's address and the list after it, as the specification says, and
-- what became of memory. `k` is the number of the region that served the request.
pub record Scanned (buf i size : ℕ) (m : Words) (slab : SlabAlloc) (rs : List Region) (a : ℕ)
    (fs : List Frames) (out : Run (Option (Taken × List Region))) : Type 0 where
  pub taken : Taken
  pub left : List Region
  pub runs : out ≡ done (some (taken, left))
  pub at_lowest : taken.address ≡ a
  pub same_slab : taken.slab ≡ slab
  pub frames : map view left ≡ fs
  pub count : length left ≡ length rs
  pub regions : AreRegions buf taken.mem i left
  pub k : ℕ
  pub k_from : i ≤ k
  pub k_below : k < i + length rs
  pub same : SameBlocks buf (own_slot buf k) m taken.mem
  pub zeroed : (p : ℕ) → a ≤ p → p < a + size → taken.mem p ≡ 0
  pub elsewhere :
      (p : ℕ) → (p < buf) ⊎ (buf_end buf ≤ p) → (p < a) ⊎ (a + size ≤ p) → taken.mem p ≡ m p
  pub page : a % 4096 ≡ 0
  pub above_zero : 0 < a

abbrev pub ScanResult :
    (buf i size : ℕ)
    → Words
    → SlabAlloc
    → List Region
    → Option (ℕ × List Frames)
    → Run (Option (Taken × List Region))
    → Type 0
ScanResult buf i size m slab rs none out = out ≡ done none
ScanResult buf i size m slab rs (some (a, fs)) out = Scanned buf i size m slab rs a fs out

-- Both tests pass a region over for the same reasons.
pub skip_same :
    (buf i size : ℕ) (m : Words) (r : Region)
    → IsRegion buf m i r
    → (ltb r.free_bytes size || r.free_blocks == 0) ≡ (ltb r.free_bytes size || r.free_bytes == 0)
skip_same buf i size m r v = elim v.blocks [
  | inl b ↦ ground (arith, b.unused, b.listed)
  | inr e ↦ ground (arith, e.used_up, e.no_block)
]
