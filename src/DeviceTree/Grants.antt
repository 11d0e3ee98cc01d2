-- ===== src/DeviceTree/Grants.antt =====
-- The bump allocator behind the tree: what it grants while the current region has room, and what
-- `take` gives for an array of numbers.
use octiron.Base.{
  ℕ, zero, suc, ◌+◌, ◌*◌, ◌^◌, ◌≤◌, ◌<◌, ◌≡◌, refl, done, arith, true, not, ◌==◌, if◌then◌else◌,
}
use octiron.Base.Bits.{two_pow_pos}
use octiron.Number.{align_up}
use octiron.Number.Align.{align_up_lem}
use octiron.Pmm.{Pmm}
use octiron.Bump.{BumpAlloc, alloc_aligned}
use octiron.Bump.Room.{HasRegion, moved, alloc_aligned_lem}
use octiron.DeviceTree.{DeviceTree}
use octiron.DeviceTree.Cells.{take}

module _ (hhdm_base most : ℕ) where
  -- The next `n` requests, of at most `most` bytes each with an alignment of 4 or 8, get memory.
  abbrev pub Grants : (n : ℕ) → Pmm → BumpAlloc → Type 0
  Grants zero s b = Unit {0}
  Grants (suc n) s b =
      (size k : ℕ)
      → 0 < size
      → size ≤ most
      → k ≤ 3
      → (a : ℕ) × (s' : Pmm) × (b' : BumpAlloc) × (alloc_aligned hhdm_base size (2 ^ k) s b
          ≡ done (a, s', b'))
        × (0 < a)
        × Grants n s' b'

  pub Grants-less : (n : ℕ) (s : Pmm) (b : BumpAlloc) → Grants (suc n) s b → Grants n s b
  Grants-less zero s b h = tt
  Grants-less (suc n) s b h = λ size k p l kl.
      let (a, s', b', runs, pos, more) = h size k p l kl in
      (a, s', b', runs, pos, Grants-less n s' b' more)

  pow_small : (k : ℕ) → k ≤ 3 → 2 ^ k ≤ 8
  pow_small zero h = omega arith
  pow_small (suc zero) h = omega arith
  pow_small (suc (suc zero)) h = omega arith
  pow_small (suc (suc (suc zero))) h = omega arith
  pow_small (suc (suc (suc (suc k)))) h = absurd (omega (arith, h))

  -- A region with room for all of them grants them.
  pub HasRegion-Grants :
      (n : ℕ) (s : Pmm) (b : BumpAlloc) (curr end : ℕ)
      → HasRegion hhdm_base s b curr end
      → 0 < curr
      → curr + n * (most + 8) ≤ end
      → Grants n s b
  HasRegion-Grants zero s b curr end v pos room = tt
  HasRegion-Grants (suc n) s b curr end v pos room = λ size k p l kl.
      let small = pow_small k kl in
      let a = align_up curr (2 ^ k) in
      let split : suc n * (most + 8) ≡ most + 8 + n * (most + 8) = grind arith in
      let fits : curr + 2 ^ k ≤ 2 ^ 64 = omega (arith, small, split, room, v.end_fits) in
      let up = align_up_lem k curr (omega (arith, kl)) fits in
      let (runs, next, _, above, near) =
        alloc_aligned_lem hhdm_base size k s b curr end v p (omega (arith, kl)) fits
          (omega (arith, up.2, small, split, room, l)) in
      (
        a,
        moved hhdm_base s b (a + size),
        b,
        runs,
        omega (arith, above, pos),
        HasRegion-Grants n (moved hhdm_base s b (a + size)) b (a + size) end next
            (omega (arith, above, pos)) (omega (arith, near, small, split, room, l)),
      )

  -- The memory for `count` numbers of some cells each, none for no cells.
  pub record Taken (n size alignment : ℕ) (d : DeviceTree) : Type 0 where
    pub address : ℕ
    pub pmm : Pmm
    pub bump : BumpAlloc
    pub runs : take hhdm_base size alignment d ≡ done (address, record d { pmm = pmm; bump = bump })
    pub there : (if alignment == 0 then address == 0 else not (address == 0)) ≡ true
    pub grants : Grants n pmm bump

  pub take_granted :
      (n size k : ℕ) (d : DeviceTree)
      → 0 < size
      → size ≤ most
      → k ≤ 3
      → Grants (suc n) d.pmm d.bump
      → Taken n size (2 ^ k) d
  take_granted n size k d p l kl h =
      let (a, s', b', runs, pos, more) = h size k p l kl in
      let some_alignment : 0 < 2 ^ k = two_pow_pos k in
      record {
        address = a;
        pmm = s';
        bump = b';
        runs = rw runs refl;
        there = ground (arith, pos, some_alignment);
        grants = more;
      }

  pub take_numbers :
      (n cells count : ℕ) (d : DeviceTree)
      → cells ≤ 2
      → 0 < count
      → 4 * cells * count ≤ most
      → Grants (suc n) d.pmm d.bump
      → Taken n (4 * cells * count) (4 * cells) d
  unfolding alloc_aligned
  take_numbers n zero count d c p l h = record {
    address = 0;
    pmm = d.pmm;
    bump = d.bump;
    runs = let none_asked : 4 * 0 * count ≡ 0 = omega arith in rw none_asked refl;
    there = refl;
    grants = Grants-less n d.pmm d.bump h;
  }
  take_numbers n (suc zero) count d c p l h =
      take_granted n (4 * count) 2 d (omega arith) l (omega arith) h
  take_numbers n (suc (suc zero)) count d c p l h =
      take_granted n (8 * count) 3 d (omega arith) l (omega arith) h
  take_numbers n (suc (suc (suc c'))) count d c p l h = absurd (omega (arith, c))
