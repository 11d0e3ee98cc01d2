-- ===== src/Bump/Fresh.antt =====
-- Allocations that the current region has no room for.
use octiron.Base.{
  ℕ, ◌+◌, ◌-◌, ◌*◌, ◌/◌, ◌^◌, ◌≤◌, ◌<◌, ◌≡◌, ◌≢◌, true, false, none, some, List, done, arith, ltb,
  ◌==◌, ◌||◌, refl, subst, map,
}
use octiron.Number.{u64, sub64}
use octiron.Number.Align.{align_up_page}
use octiron.Errors.{Error, ErrorCode, of_code}
use octiron.Words.{write}
use octiron.Pmm.{Pmm}
use octiron.Pmm.Take.{alloc as pmm_alloc}
use octiron.Pmm.Spec.{Frames, view, give}
use octiron.Pmm.Invariant.{IsPmm}
use octiron.Pmm.Alloc.{pages, Allocated, AllocResult, alloc-AllocResult}
use octiron.Bump.{
  BumpAlloc, load, put, set_up, hhdm_phys_to_virt, hhdm_virt_to_phys, ensure_room, alloc,
}
use octiron.Bump.Room.{HasRegion, moved, moved-HasRegion, ensure_region_there}

-- The bytes of the new region for a request that misses so many.
abbrev pub region_for : (missing : ℕ) → ℕ
region_for missing = (missing + 4095) / 4096 * 4096 + 4096

module _ (hhdm_base : ℕ) where
  -- The stores behind the change to a new region at the physical address `a`, where nothing of the
  -- region has been handed out.
  abbrev pub changed : Pmm → BumpAlloc → (a bytes : ℕ) → Pmm
  changed s b a bytes =
      let region = hhdm_phys_to_virt hhdm_base a in
      record s {
        mem = set_up hhdm_base region bytes (put hhdm_base s.mem (b.current_region + 16) region);
      }

  changed-HasRegion :
      (s : Pmm) (b : BumpAlloc) (a bytes : ℕ)
      → b.region_list ≢ 0
      → 0 < hhdm_base
      → hhdm_base + a + bytes + 4096 < 2 ^ 64
      → HasRegion hhdm_base
          (changed s b a bytes)
          (record b { current_region = hhdm_phys_to_virt hhdm_base a })
          (hhdm_base + a + 24)
          (hhdm_base + a + bytes)
  unfolding set_up put load write hhdm_phys_to_virt hhdm_virt_to_phys
  changed-HasRegion s b a bytes listed base small =
      let virt : u64 (a + hhdm_base) ≡ hhdm_base + a = omega arith in
      let at : u64 (hhdm_base + a + 2 ^ 64 - hhdm_base) ≡ a = omega arith in
      let at_8 : u64 (hhdm_base + a + 8 + 2 ^ 64 - hhdm_base) ≡ a + 8 = omega arith in
      let at_16 : u64 (hhdm_base + a + 16 + 2 ^ 64 - hhdm_base) ≡ a + 16 = omega arith in
      record {
        listed = listed;
        mapped = omega (arith, virt);
        there = omega (arith, virt);
        no_wrap = omega (arith, virt);
        end_word = rw (virt, at, at_8, at_16) (ground arith);
        curr_word = rw (virt, at, at_8, at_16) (ground arith);
        end_fits = omega arith;
      }

  module _ (s : Pmm) (b : BumpAlloc) (curr end size : ℕ) (v : HasRegion hhdm_base s b curr end)
      (base : 0 < hhdm_base) (full : end < curr + size) (inside : curr ≤ end)
      (small : size < 2 ^ 62) (no_wrap : curr + size < 2 ^ 64) where
    abbrev pub asked : ℕ
    asked = region_for (curr + size - end)

    -- The allocator behind the change.
    abbrev pub at_region : ℕ → BumpAlloc
    at_region a = record b { current_region = hhdm_phys_to_virt hhdm_base a }

    ensure_room_new :
        (err : Error) (a : ℕ) (s' : Pmm)
        → pmm_alloc asked false s ≡ done (err, some a, s')
        → ensure_room hhdm_base curr size s b ≡ done (changed s' b a asked, at_region a)
    unfolding ensure_room
    ensure_room_new err a s' served =
        let wrap : u64 (curr + size) ≡ curr + size = omega arith in
        let short : ltb end (curr + size) ≡ true = ground arith in
        let missing : sub64 (curr + size) end ≡ curr + size - end = omega (arith, v.end_fits) in
        let up = align_up_page (curr + size - end) (omega arith) in
        let bytes : u64 ((curr + size - end + 4095) / 4096 * 4096 + 4096) ≡ asked = omega arith in
        rw
          (
            v.end_word, wrap, short, missing, up, bytes, served, v.end_word, wrap, missing, up,
            bytes,
          )
          refl

    changes :
        (err : Error) (a : ℕ) (s' : Pmm)
        → pmm_alloc asked false s ≡ done (err, some a, s')
        → hhdm_base + a + size + 16384 < 2 ^ 64
        → alloc hhdm_base size s b
          ≡ done (
            hhdm_base + a + 24,
            moved hhdm_base (changed s' b a asked) (at_region a) (hhdm_base + a + 24 + size),
            at_region a,
          )
    unfolding alloc
    changes err a s' served fits =
        let some_size : (b.current_region == 0 || size == 0) ≡ false = ground (arith, v.there) in
        let h = changed-HasRegion s' b a asked v.listed base (omega arith) in
        let end' : u64 (hhdm_base + a + 24 + size) ≡ hhdm_base + a + 24 + size =
          omega (arith, inside) in
        rw
          (
            some_size,
            ensure_region_there hhdm_base v,
            v.curr_word,
            ensure_room_new err a s' served,
            h.curr_word,
            end',
          )
          refl

    -- What `alloc` leaves when its new region is at `a` and the manager has the frames `fs` then: the
    -- memory begins behind the region's header, and the first free byte of the region is behind it.
    pub record InNewRegion (a : ℕ) (fs : List Frames) : Type 0 where
      pub after : Pmm
      pub runs : alloc hhdm_base size s b ≡ done (hhdm_base + a + 24, after, at_region a)
      pub region :
          HasRegion hhdm_base after
            (at_region a)
            (hhdm_base + a + 24 + size)
            (hhdm_base + a + asked)
      pub frames : map view after.regions ≡ fs

    in_new_region :
        (err : Error) (a : ℕ) (fs : List Frames) (s' : Pmm)
        → pmm_alloc asked false s ≡ done (err, some a, s')
        → hhdm_base + a + size + 16384 < 2 ^ 64
        → map view s'.regions ≡ fs
        → InNewRegion a fs
    in_new_region err a fs s' served fits e = record {
      after = moved hhdm_base (changed s' b a asked) (at_region a) (hhdm_base + a + 24 + size);
      runs = changes err a s' served fits;
      region =
          moved-HasRegion hhdm_base (changed s' b a asked) (at_region a) (hhdm_base + a + 24)
            (hhdm_base + a + asked) (hhdm_base + a + 24 + size)
            (changed-HasRegion s' b a asked v.listed base (omega arith));
      frames = e;
    }

    module _ (buf : ℕ) (w : IsPmm buf s) where
      served_region :
          (a : ℕ) (fs : List Frames)
          → give (pages asked) (map view s.regions) ≡ some (a, fs)
          → hhdm_base + a + size + 16384 < 2 ^ 64
          → InNewRegion a fs
      served_region a fs gives fits =
          let al : Allocated buf asked s a fs =
            subst (AllocResult buf asked s) gives (alloc-AllocResult buf asked s w (omega arith)) in
          in_new_region (of_code ErrorCode.success) a fs al.after al.runs fits al.frames

      -- A request that the current region has no room for, of less than 2 ^ 62 bytes and without a
      -- wrap-around, when that region has at most 4072 bytes left, as a region of one page has: if the
      -- manager can give memory, a new region becomes the current one, the request gets the memory
      -- behind its header, and that memory lies inside the region.
      pub alloc-InNewRegion :
          (a : ℕ) (fs : List Frames)
          → give (pages asked) (map view s.regions) ≡ some (a, fs)
          → hhdm_base + a + size + 16384 < 2 ^ 64
          → end ≤ curr + 4072
          → InNewRegion a fs × (hhdm_base + a + 24 + size ≤ hhdm_base + a + asked)
      alloc-InNewRegion a fs gives fits few = (served_region a fs gives fits, omega (arith, full))

      -- The same request when the current region has 8168 bytes left or more: the memory that it gets
      -- reaches behind the end of the new region.
      pub alloc_overruns :
          (a : ℕ) (fs : List Frames)
          → give (pages asked) (map view s.regions) ≡ some (a, fs)
          → hhdm_base + a + size + 16384 < 2 ^ 64
          → curr + 8168 ≤ end
          → InNewRegion a fs × (hhdm_base + a + asked < hhdm_base + a + 24 + size)
      alloc_overruns a fs gives fits many = (served_region a fs gives fits, omega (arith, full))

      -- The same request when the manager has no memory for a new region: the error is ignored, the
      -- region is set up at the physical address 0, which the manager does not own, and the request
      -- gets the memory behind it.
      pub alloc_without_memory :
          give (pages asked) (map view s.regions) ≡ none
          → hhdm_base + size + 16384 < 2 ^ 64
          → InNewRegion 0 (map view s.regions)
      alloc_without_memory refused fits =
          let out =
            subst (AllocResult buf asked s) refused
              (alloc-AllocResult buf asked s w (omega arith)) in
          in_new_region (of_code ErrorCode.pmm_out_of_mem) 0 (map view s.regions) s out
            (omega arith) refl
