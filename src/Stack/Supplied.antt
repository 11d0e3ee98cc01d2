-- ===== src/Stack/Supplied.antt =====
-- A well-formed manager with enough unused memory in its first region supplies growing stacks.
use native.Mathlib.Nat.{suc-mul}
use octiron.Base.{
  ℕ, zero, suc, ◌+◌, ◌-◌, ◌*◌, ◌^◌, ◌≤◌, ◌<◌, ◌≡◌, some, List, [], ◌∷◌, map, arith, subst,
}
use octiron.Number.{u64}
use octiron.Pmm.{Pmm, Region}
use octiron.Pmm.Spec.{Frames, view, give}
use octiron.Pmm.Invariant.{IsPmm, AreRegions}
use octiron.Pmm.Alloc.{pages, Allocated, AllocResult, alloc-AllocResult}
use octiron.Bump.{hhdm_phys_to_virt}
use octiron.Stack.Push.{noerr_runs}
use octiron.Stack.Supply.{Supplies}

first_bounded :
    (buf : ℕ) (m : ℕ → ℕ) (rs : List Region) (f : Frames) (fs : List Frames)
    → AreRegions buf m 0 rs
    → map view rs ≡ f ∷ fs
    → f.unused ≤ f.length
first_bounded buf m [] f fs h e = cc
first_bounded buf m (r ∷ rs) f fs (h, more) e =
    let same : view r ≡ f = cc in subst (λ (x : Frames). x.unused ≤ x.length) same h.bounded

give_first :
    (size : ℕ) (f : Frames) (fs : List Frames)
    → 0 < size
    → size ≤ f.unused
    → give size (f ∷ fs)
      ≡ some (f.base + f.length - f.unused, record f { unused = f.unused - size } ∷ fs)
unfolding give
give_first size f fs pos fits = ground arith

-- The first region has the bytes for `n` requests, and is mapped without a wrap-around.
pub record HasFirst (hhdm_base most n low : ℕ) (f : Frames) : Type 0 where
  pub enough : n * (most + 4096) ≤ f.unused
  pub mapped : hhdm_base + (f.base + f.length) < 2 ^ 64
  pub above : low + f.unused ≤ hhdm_base + (f.base + f.length)

pub HasFirst-Supplies :
    (buf hhdm_base most n low : ℕ) (s : Pmm) (f : Frames) (fs : List Frames)
    → most < 2 ^ 62
    → IsPmm buf s
    → map view s.regions ≡ f ∷ fs
    → HasFirst hhdm_base most n low f
    → Supplies hhdm_base most n s low
unfolding hhdm_phys_to_virt
HasFirst-Supplies buf hhdm_base most zero low s f fs small v e h = tt
HasFirst-Supplies buf hhdm_base most (suc n) low s f fs small v e h = λ bytes pos fits.
    let enough = h.enough in
    let product : suc n * (most + 4096) ≡ n * (most + 4096) + (most + 4096) =
      suc-mul n (most + 4096) in
    let bounded = first_bounded buf s.mem s.regions f fs v.regions e in
    let a = f.base + f.length - f.unused in
    let f' : Frames = record f { unused = f.unused - pages bytes } in
    let gives : give (pages bytes) (map view s.regions) ≡ some (a, f' ∷ fs) =
      rw e (give_first (pages bytes) f fs (omega arith) (omega arith)) in
    let al : Allocated buf bytes s a (f' ∷ fs) =
      subst (AllocResult buf bytes s) gives (alloc-AllocResult buf bytes s v (omega arith)) in
    let at_a : u64 (a + hhdm_base) ≡ a + hhdm_base = omega (arith, h.mapped) in
    (
      a,
      al.after,
      noerr_runs bytes a s al.after al.runs,
      al.above_zero,
      omega (arith, at_a, h.above, bounded),
      HasFirst-Supplies buf hhdm_base most n (suc (hhdm_phys_to_virt hhdm_base a)) al.after f' fs
          small al.well_formed al.frames
          (record {
            enough = omega (arith, product);
            mapped = h.mapped;
            above = omega (arith, at_a, product, bounded);
          }),
    )
