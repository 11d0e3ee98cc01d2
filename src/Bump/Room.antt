-- ===== src/Bump/Room.antt =====
-- Allocations that the current region has room for.
use octiron.Base.{ℕ, ◌+◌, ◌%◌, ◌^◌, ◌≤◌, ◌<◌, ◌≡◌, ◌≢◌, false, done, arith, ltb, ◌==◌, ◌||◌, refl}
use octiron.Number.{align_up, u64}
use octiron.Base.Bits.{two_pow_pos}
use octiron.Number.Align.{align_up_lem}
use octiron.Words.{write}
use octiron.Pmm.{Pmm}
use octiron.Bump.{BumpAlloc, load, put, ensure_region, ensure_room, alloc, alloc_aligned}

module _ (hhdm_base : ℕ) where
  -- The current region is there, at a pointer into the direct map, and ends at `end`; `curr` is its
  -- first free byte.
  pub record HasRegion (s : Pmm) (b : BumpAlloc) (curr end : ℕ) : Type 0 where
    pub listed : b.region_list ≢ 0
    pub mapped : hhdm_base ≤ b.current_region
    pub there : 0 < b.current_region
    pub no_wrap : b.current_region + 24 < 2 ^ 64
    pub end_word : load hhdm_base s.mem b.current_region ≡ end
    pub curr_word : load hhdm_base s.mem (b.current_region + 8) ≡ curr
    pub end_fits : end < 2 ^ 64

  -- The manager after `curr` has moved.
  abbrev pub moved : Pmm → BumpAlloc → ℕ → Pmm
  moved s b curr = record s { mem = put hhdm_base s.mem (b.current_region + 8) curr }

  pub moved-HasRegion :
      (s : Pmm) (b : BumpAlloc) (curr end to : ℕ)
      → HasRegion s b curr end
      → HasRegion (moved s b to) b to end
  unfolding load put write
  moved-HasRegion s b curr end to v = record {
    listed = v.listed;
    mapped = v.mapped;
    there = v.there;
    no_wrap = v.no_wrap;
    end_word = ground (arith, v.mapped, v.no_wrap, v.end_word);
    curr_word = ground (arith, v.mapped, v.no_wrap);
    end_fits = v.end_fits;
  }

  module _ {s : Pmm} {b : BumpAlloc} {curr end : ℕ} (v : HasRegion s b curr end) where
    pub ensure_region_there : ensure_region hhdm_base s b ≡ done (s, b)
    unfolding ensure_region
    ensure_region_there =
        let found : (b.current_region == 0 || b.region_list == 0) ≡ false =
          ground (arith, v.listed, v.there) in
        rw found refl

    ensure_room_there :
        (start size : ℕ) → start + size ≤ end → ensure_room hhdm_base start size s b ≡ done (s, b)
    unfolding ensure_room
    ensure_room_there start size fits =
        let enough : ltb end (u64 (start + size)) ≡ false = ground (arith, v.end_fits) in
        rw (v.end_word, enough) refl

    alloc_runs :
        (size : ℕ)
        → 0 < size
        → curr + size ≤ end
        → alloc hhdm_base size s b ≡ done (curr, moved s b (curr + size), b)
    unfolding alloc
    alloc_runs size positive fits =
        let asked : (b.current_region == 0 || size == 0) ≡ false = ground (arith, v.there) in
        let sum : u64 (curr + size) ≡ curr + size = omega (arith, v.end_fits) in
        rw
          (
            asked,
            ensure_region_there,
            v.curr_word,
            ensure_room_there curr size fits,
            v.curr_word,
            sum,
          )
          refl

    alloc_aligned_runs :
        (size alignment a : ℕ)
        → 0 < size
        → 0 < alignment
        → align_up curr alignment ≡ a
        → a + size ≤ end
        → alloc_aligned hhdm_base size alignment s b ≡ done (a, moved s b (a + size), b)
    unfolding alloc_aligned
    alloc_aligned_runs size alignment a positive some_alignment up fits =
        let asked : (size == 0 || alignment == 0) ≡ false = ground arith in
        let sum : u64 (a + size) ≡ a + size = omega (arith, v.end_fits) in
        let mapped : (b.current_region == 0) ≡ false = ground (arith, v.there) in
        rw
          (
            asked,
            ensure_region_there,
            mapped,
            v.curr_word,
            up,
            ensure_room_there a size fits,
            v.curr_word,
            up,
            sum,
          )
          refl

  -- With room in the current region, `alloc` returns the first free byte and moves it behind the
  -- memory handed out, so that a second request that fits as well gets memory right behind the first.
  pub alloc-alloc :
      (size size' : ℕ) (s : Pmm) (b : BumpAlloc) (curr end : ℕ)
      → HasRegion s b curr end
      → 0 < size
      → 0 < size'
      → curr + size + size' ≤ end
      → (alloc hhdm_base size s b ≡ done (curr, moved s b (curr + size), b))
        × HasRegion (moved s b (curr + size)) b (curr + size) end
        × (alloc hhdm_base size' (moved s b (curr + size)) b
            ≡ done (curr + size, moved (moved s b (curr + size)) b (curr + size + size'), b))
  alloc-alloc size size' s b curr end v p p' fits =
      let next = moved-HasRegion s b curr end (curr + size) v in
      (alloc_runs v size p (omega (arith, fits)), next, alloc_runs next size' p' fits)

  -- With room in the current region, `alloc_aligned` returns an address that has the alignment, a
  -- power of two, lies at or above the first free byte and less than the alignment above it, and
  -- moves the first free byte behind the memory handed out.
  pub alloc_aligned_lem :
      (size k : ℕ) (s : Pmm) (b : BumpAlloc) (curr end : ℕ)
      → HasRegion s b curr end
      → 0 < size
      → k ≤ 63
      → curr + 2 ^ k ≤ 2 ^ 64
      → align_up curr (2 ^ k) + size ≤ end
      → let a = align_up curr (2 ^ k) in
        (alloc_aligned hhdm_base size (2 ^ k) s b ≡ done (a, moved s b (a + size), b))
        × HasRegion (moved s b (a + size)) b (a + size) end
        × (a % 2 ^ k ≡ 0)
        × (curr ≤ a)
        × (a < curr + 2 ^ k)
  alloc_aligned_lem size k s b curr end v positive small wrap fits =
      let up = align_up_lem k curr small wrap in
      (
        alloc_aligned_runs v size (2 ^ k) (align_up curr (2 ^ k)) positive (two_pow_pos k) refl
            fits,
        moved-HasRegion s b curr end (align_up curr (2 ^ k) + size) v,
        up.0,
        up.1,
        up.2,
      )
