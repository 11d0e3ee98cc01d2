-- ===== src/Pmm/Accept.antt =====
-- `initialize`, and regions that `add_region` accepts.
use mathlib.Core.List.{map-append}
use octiron.Base.{
  ℕ, ◌+◌, ◌-◌, ◌*◌, ◌/◌, ◌%◌, ◌^◌, ◌≤◌, ◌<◌, ◌≡◌, ◌⊎◌, refl, ◌∙◌, false, done, List, [], ◌∷◌, ◌++◌,
  map, length, arith, All, ◌↔◌,
}
use octiron.Number.{align_up, sub64}
use octiron.Number.Align.{align_up_page, align_down_page}
use octiron.Errors.{ErrorCode, of_code}
use octiron.Words.{Words}
use octiron.Slab.Grow.{grow-IsSlab, grown, grown_slab}
use octiron.Pmm.{Policy, Region, Pmm, initialize, is_managed, add_region, start, block_buf_size}
use octiron.Pmm.Spec.{view}
use octiron.Pmm.Invariant.{IsPmm, buf_end}
use octiron.Pmm.Add.{
  up, inner, installed, install_runs, installed-IsRegion, installed-IsPmm, add_region_guards,
}

-- The manager after `initialize`.
abbrev pub ready : ℕ → Words → Pmm
ready buf m = record (start m) { block_allocator = grown_slab buf 1568; mem = grown buf 1568 m }

buf_size : block_buf_size ≡ 1568
unfolding block_buf_size align_up
buf_size = refl

-- `initialize` with the first-fit policy and an aligned buffer passes the slab allocator's assertions
-- and sets up a well-formed manager that has no region.
pub initialize-IsPmm :
    (buf : ℕ) (m : Words)
    → 0 < buf
    → buf % 8 ≡ 0
    → (initialize buf Policy.first_fit (start m) ≡ done (ready buf m)) × IsPmm buf (ready buf m)
unfolding initialize
initialize-IsPmm buf m pos aligned =
    let grows = grow-IsSlab buf 1568 m pos aligned (omega arith) (omega arith) in
    (
      rw (buf_size, grows.0),
      record {
        policy = refl;
        slab = grows.1;
        few = omega arith;
        regions = tt;
        total = refl;
        small = omega arith;
      },
    )

pub record Added (buf base size : ℕ) (s : Pmm) : Type 0 where
  pub after : Pmm
  pub runs : add_region base size s ≡ done (of_code ErrorCode.success, after)
  pub well_formed : IsPmm buf after
  pub frames :
      map view after.regions
      ≡ map view s.regions
        ++ record { base = up base; length = inner base size; unused = inner base size } ∷ []
  pub counted : after.free_bytes ≡ s.free_bytes + inner base size

-- A region that reaches a page boundary, has a whole page, lies apart from `BLOCK_BUF` and has no
-- managed region around its first page is accepted by a well-formed manager with fewer than 16
-- regions, unless it starts at 0, ends at the top of the address space or overflows the count of free
-- bytes: its whole pages are entered as one unused region, and the invariant holds again.
pub add_region-IsPmm :
    (buf base size : ℕ) (s : Pmm)
    → IsPmm buf s
    → length s.regions < 16
    → 0 < base
    → base + size + 4096 ≤ 2 ^ 64
    → up base ≤ base + size
    → 0 < inner base size
    → is_managed (up base) s.regions ≡ false
    → (base + size ≤ buf) ⊎ (buf_end buf ≤ base)
    → s.free_bytes + size < 2 ^ 64
    → Added buf base size s
add_region-IsPmm buf base size s v room pos fits reach page new apart sum = record {
  after = installed buf (up base) (inner base size) s v room;
  runs =
      add_region_guards base size s fits reach
      ∙ rw (new, install_runs buf (up base) (inner base size) s v room) (ground arith);
  well_formed =
      installed-IsPmm buf (up base) (inner base size) s v room
        (installed-IsRegion buf (up base) (inner base size) s v room (omega arith) (omega arith)
          (omega arith) page (omega arith) (omega arith))
        (omega arith);
  frames = unfold installed in map-append view s.regions _;
  counted = unfold installed in omega arith;
}

-- The flaw of the size check: a region without a page boundary inside, which ought to be too small,
-- is entered with a length of 2 ^ 64 - 4096 bytes from the next page on, by a well-formed manager with
-- fewer than 16 regions and none around that page.
pub add_region_wraps :
    (buf base size : ℕ) (s : Pmm) (v : IsPmm buf s) (room : length s.regions < 16)
    → 0 < base
    → base + size + 4096 ≤ 2 ^ 64
    → base + size < up base
    → is_managed (up base) s.regions ≡ false
    → add_region base size s
      ≡ done (of_code ErrorCode.success, installed buf (up base) (2 ^ 64 - 4096) s v room)
unfolding add_region
add_region_wraps buf base size s v room pos fits short new =
    rw
      (
        align_up_page base (omega arith),
        align_down_page (sub64 size (sub64 (up base) base)) (omega arith),
        huge,
        new,
        install_runs buf (up base) (2 ^ 64 - 4096) s v room,
      )
      (ground arith)
  where
    huge : sub64 size (sub64 (up base) base) / 4096 * 4096 ≡ 2 ^ 64 - 4096
    huge = omega arith

-- The overlap check, for managed regions that do not wrap: an address passes exactly if each region
-- starts above it or ends strictly below it. So the length of the new region plays no part, and a
-- region right behind a managed one does not pass.
pub is_managed_iff :
    (a : ℕ) (rs : List Region)
    → All (λ r. r.base + r.length < 2 ^ 64) rs
    → (is_managed a rs ≡ false) ↔ All (λ r. (a < r.base) ⊎ (r.base + r.length < a)) rs
unfolding is_managed
is_managed_iff a [] h = (λ e. tt, λ t. refl)
is_managed_iff a (r ∷ rs) h =
    let rest = is_managed_iff a rs h.1 in
    (λ e. (ground (arith, h.0), rest.0 (ground arith)), λ t. ground (arith, h.0, t.0, rest.1 t.1))
