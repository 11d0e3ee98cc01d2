-- ===== src/Pmm/Invariant.antt =====
-- The invariant of the manager while every request has page alignment: a region's list is one
-- block, which is the region's unused upper end, or is empty.
use octiron.Base.{
  ℕ, suc, ◌+◌, ◌-◌, ◌*◌, ◌%◌, ◌^◌, ◌≤◌, ◌<◌, ◌≡◌, ◌⊎◌, inl, inr, List, [], ◌∷◌, map, length, arith,
  ◌∙◌, ◌≢◌, ◌++◌, subst,
}
use native.Mathlib.Decide.{dec_lt}
use octiron.Words.{Words}
use octiron.Slab.Free.{IsSlab, slot}
use octiron.Pmm.{Policy, Region, Pmm}
use octiron.Pmm.Spec.{view, unused_bytes}

-- Bytes of `BLOCK_BUF` at `buf`.
abbrev pub buf_end : ℕ → ℕ
buf_end buf = buf + 1568

-- The block of region `i`: the second of the two that `add_region` takes.
abbrev pub own_slot : ℕ → ℕ → ℕ
own_slot buf i = slot buf (2 * i + 1)

-- The block of region `i` covers the unused bytes and is the last of its list.
pub record IsOneBlock (buf : ℕ) (m : Words) (i : ℕ) (r : Region) : Type 0 where
  pub unused : 0 < r.free_bytes
  pub listed : r.free_blocks ≡ own_slot buf i
  pub block_base : m (own_slot buf i) ≡ r.base + r.length - r.free_bytes
  pub block_length : m (own_slot buf i + 8) ≡ r.free_bytes
  pub block_next : m (own_slot buf i + 16) ≡ 0

pub record IsEmpty (r : Region) : Type 0 where
  pub used_up : r.free_bytes ≡ 0
  pub no_block : r.free_blocks ≡ 0

pub record IsRegion (buf : ℕ) (m : Words) (i : ℕ) (r : Region) : Type 0 where
  pub above_zero : 0 < r.base
  pub base_aligned : r.base % 4096 ≡ 0
  pub length_aligned : r.length % 4096 ≡ 0
  pub unused_aligned : r.free_bytes % 4096 ≡ 0
  pub no_wrap : r.base + r.length < 2 ^ 64
  pub bounded : r.free_bytes ≤ r.length
  pub apart : (r.base + r.length ≤ buf) ⊎ (buf_end buf ≤ r.base)
  pub blocks : IsOneBlock buf m i r ⊎ IsEmpty r

-- The regions from number `i` on.
abbrev pub AreRegions : ℕ → Words → ℕ → List Region → Type 0
AreRegions buf m i [] = Unit {0}
AreRegions buf m i (r ∷ rs) = IsRegion buf m i r × AreRegions buf m (suc i) rs

pub record IsPmm (buf : ℕ) (s : Pmm) : Type 0 where
  pub policy : s.pol ≡ Policy.first_fit
  pub slab : IsSlab buf 64 (2 * length s.regions) s.mem s.block_allocator
  pub few : length s.regions ≤ 16
  pub regions : AreRegions buf s.mem 0 s.regions
  pub total : s.free_bytes ≡ unused_bytes (map view s.regions)
  pub small : s.free_bytes < 2 ^ 64

-- Memory agrees on `BLOCK_BUF` but for one block.
abbrev pub SameBlocks : ℕ → ℕ → Words → Words → Type 0
SameBlocks buf c m m' = (p : ℕ) → buf ≤ p → p < buf_end buf → (p < c) ⊎ (c + 24 ≤ p) → m' p ≡ m p

slots_apart :
    (buf i k p : ℕ)
    → i ≢ k
    → own_slot buf i ≤ p
    → p < own_slot buf i + 24
    → (p < own_slot buf k) ⊎ (own_slot buf k + 24 ≤ p)
slots_apart buf i k p ne h l = elim (dec_lt i k) [
  | yes lt ↦ inl (omega arith)
  | no ge ↦ inr (omega arith)
]

-- Only the region's own block matters.
abbrev pub OwnSame : ℕ → ℕ → Words → Words → Type 0
OwnSame buf i m m' = (p : ℕ) → own_slot buf i ≤ p → p < own_slot buf i + 24 → m' p ≡ m p

IsOneBlock-own :
    (buf i : ℕ) (m m' : Words) (r : Region)
    → OwnSame buf i m m'
    → IsOneBlock buf m i r
    → IsOneBlock buf m' i r
IsOneBlock-own buf i m m' r same b = record {
  unused = b.unused;
  listed = b.listed;
  block_base = same (own_slot buf i) (omega arith) (omega arith) ∙ b.block_base;
  block_length = same (own_slot buf i + 8) (omega arith) (omega arith) ∙ b.block_length;
  block_next = same (own_slot buf i + 16) (omega arith) (omega arith) ∙ b.block_next;
}

pub IsRegion-own :
    (buf i : ℕ) (m m' : Words) (r : Region)
    → OwnSame buf i m m'
    → IsRegion buf m i r
    → IsRegion buf m' i r
IsRegion-own buf i m m' r same v = record {
  above_zero = v.above_zero;
  base_aligned = v.base_aligned;
  length_aligned = v.length_aligned;
  unused_aligned = v.unused_aligned;
  no_wrap = v.no_wrap;
  bounded = v.bounded;
  apart = v.apart;
  blocks = elim v.blocks [ inl b ↦ inl (IsOneBlock-own buf i m m' r same b) | inr e ↦ inr e ];
}

pub IsRegion-frame :
    (buf i k : ℕ) (m m' : Words) (r : Region)
    → i ≢ k
    → i < 16
    → SameBlocks buf (own_slot buf k) m m'
    → IsRegion buf m i r
    → IsRegion buf m' i r
IsRegion-frame buf i k m m' r ne lt same =
    IsRegion-own buf i m m' r
      λ p h l. same p (omega arith) (omega arith) (slots_apart buf i k p ne h l)

-- A change of block `k` leaves the regions behind number `k` alone.
pub AreRegions-frame :
    (buf i k : ℕ) (m m' : Words) (rs : List Region)
    → k < i
    → i + length rs ≤ 16
    → SameBlocks buf (own_slot buf k) m m'
    → AreRegions buf m i rs
    → AreRegions buf m' i rs
AreRegions-frame buf i k m m' [] lt few same v = tt
AreRegions-frame buf i k m m' (r ∷ rs) lt few same v = (
  IsRegion-frame buf i k m m' r (omega arith) (omega arith) same v.0,
  AreRegions-frame buf (suc i) k m m' rs (omega arith) (omega arith) same v.1,
)

-- A new last region.
pub AreRegions-append :
    (buf i j : ℕ) (m m' : Words) (rs : List Region) (r : Region)
    → i + length rs ≡ j
    → ((k : ℕ) → k < j → OwnSame buf k m m')
    → AreRegions buf m i rs
    → IsRegion buf m' j r
    → AreRegions buf m' i (rs ++ r ∷ [])
AreRegions-append buf i j m m' [] r e same v new =
    (subst (λ k. IsRegion buf m' k r) {x = j} {y = i} (omega arith) new, tt)
AreRegions-append buf i j m m' (x ∷ rs) r e same v new = (
  IsRegion-own buf i m m' x (same i (omega arith)) v.0,
  AreRegions-append buf (suc i) j m m' rs r (omega arith) same v.1 new,
)

pub unused_bytes-append :
    (rs : List Region) (r : Region)
    → unused_bytes (map view (rs ++ r ∷ [])) ≡ unused_bytes (map view rs) + r.free_bytes
unused_bytes-append [] r = omega arith
unused_bytes-append (x ∷ rs) r = omega (arith, unused_bytes-append rs r)
