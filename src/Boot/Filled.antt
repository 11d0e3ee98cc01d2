-- ===== src/Boot/Filled.antt =====
-- The manager that a memory map fills.
use mathlib.Core.List.{append-nil, append_assoc}
use octiron.Base.{
  ℕ, suc, ◌+◌, ◌%◌, ◌^◌, ◌≤◌, ◌<◌, ◌≡◌, ◌⊎◌, ◌∙◌, refl, sym, ap, true, false, ◌==◌, done, List, [],
  ◌∷◌, ◌++◌, map, length, arith, All, Bool-cases, inl, inr, subst,
}
use octiron.Errors.{is_err}
use octiron.Words.{Words}
use octiron.Pmm.{Region, Pmm}
use octiron.Pmm.Spec.{Frames, view, unused_bytes}
use octiron.Pmm.Invariant.{IsPmm, AreRegions, buf_end}
use octiron.Pmm.Add.{up, inner}
use octiron.Pmm.Accept.{ready, Added, initialize-IsPmm, add_region-IsPmm, is_managed_iff}
use octiron.Boot.{MemmapEntry, memmap_usable, add_usable, set_up_memory}

-- The frames of an entry: its whole pages.
abbrev pub whole : MemmapEntry → Frames
whole e = record {
  base = up e.base;
  length = inner e.base e.length;
  unused = inner e.base e.length;
}

-- The address is in no frames, nor right behind any.
abbrev pub IsApart : ℕ → List Frames → Type 0
IsApart a fs = All (λ f. (a < f.base) ⊎ (f.base + f.length < a)) fs

-- A usable entry that the manager can take when it has the frames `fs`.
pub record Acceptable (buf : ℕ) (fs : List Frames) (e : MemmapEntry) : Type 0 where
  pub positive : 0 < e.base
  pub no_wrap : e.base + e.length + 4096 ≤ 2 ^ 64
  pub reaches : up e.base ≤ e.base + e.length
  pub has_page : 0 < inner e.base e.length
  pub apart_buf : (e.base + e.length ≤ buf) ⊎ (buf_end buf ≤ e.base)
  pub apart : IsApart (up e.base) fs
  pub few : length fs < 16
  pub sum : unused_bytes fs + e.length < 2 ^ 64

-- The usable entries of a map are acceptable one after the other.
abbrev pub IsGood : ℕ → List Frames → List MemmapEntry → Type 0
IsGood buf fs [] = Unit {0}
IsGood buf fs (e ∷ es) = elim (e.type == memmap_usable) [
  | true ↦ Acceptable buf fs e × IsGood buf (fs ++ whole e ∷ []) es
  | false ↦ IsGood buf fs es
]

-- The frames of a map.
abbrev pub frames_of : List MemmapEntry → List Frames
frames_of [] = []
frames_of (e ∷ es) = elim (e.type == memmap_usable) [
  | true ↦ whole e ∷ frames_of es
  | false ↦ frames_of es
]

length-views : (rs : List Region) → length (map view rs) ≡ length rs
length-views [] = refl
length-views (r ∷ rs) = ap suc (length-views rs)

no_wraps :
    (buf i : ℕ) (s : Pmm) (rs : List Region)
    → AreRegions buf s.mem i rs
    → All (λ r. r.base + r.length < 2 ^ 64) rs
no_wraps buf i s [] v = tt
no_wraps buf i s (r ∷ rs) v = (v.0.no_wrap, no_wraps buf (suc i) s rs v.1)

apart_regions :
    (a : ℕ) (rs : List Region)
    → IsApart a (map view rs)
    → All (λ r. (a < r.base) ⊎ (r.base + r.length < a)) rs
apart_regions a [] h = tt
apart_regions a (r ∷ rs) h = (h.0, apart_regions a rs h.1)

-- One acceptable entry.
accepts :
    (buf : ℕ) (e : MemmapEntry) (s : Pmm)
    → IsPmm buf s
    → Acceptable buf (map view s.regions) e
    → Added buf e.base e.length s
accepts buf e s v ok =
    add_region-IsPmm buf e.base e.length s v (omega (arith, ok.few, length-views s.regions))
      ok.positive ok.no_wrap ok.reaches ok.has_page
      ((is_managed_iff (up e.base) s.regions (no_wraps buf 0 s s.regions v.regions)).1
        (apart_regions (up e.base) s.regions ok.apart))
      ok.apart_buf (omega (arith, ok.sum, v.total))

-- The manager after the map's entries.
pub record Filled (buf : ℕ) (fs : List Frames) (es : List MemmapEntry) (s : Pmm) : Type 0 where
  pub after : Pmm
  pub runs : add_usable es s ≡ done after
  pub well_formed : IsPmm buf after
  pub frames : map view after.regions ≡ fs ++ frames_of es

module _ (buf : ℕ) (fs : List Frames) (x : MemmapEntry) (es : List MemmapEntry) (s : Pmm) where
  fill_skipped : (x.type == memmap_usable) ≡ false → Filled buf fs es s → Filled buf fs (x ∷ es) s
  unfolding add_usable
  fill_skipped skip rest = record {
    after = rest.after;
    runs = rw (skip, add_usable) rest.runs;
    well_formed = rest.well_formed;
    frames = rw (skip, frames_of) rest.frames;
  }

  fill_taken :
      (x.type == memmap_usable) ≡ true
      → (one : Added buf x.base x.length s) → Filled buf (fs ++ whole x ∷ []) es one.after
      → Filled buf fs (x ∷ es) s
  unfolding add_usable is_err
  fill_taken take one rest = record {
    after = rest.after;
    runs = rw (take, add_usable) (rw one.runs rest.runs);
    well_formed = rest.well_formed;
    frames = rw (take, frames_of) (rest.frames ∙ append_assoc fs (whole x ∷ []) (frames_of es));
  }

fill :
    (buf : ℕ) (fs : List Frames) (es : List MemmapEntry) (s : Pmm)
    → IsPmm buf s
    → map view s.regions ≡ fs
    → IsGood buf fs es
    → Filled buf fs es s
unfolding add_usable
fill buf fs [] s v e good = record {
  after = s;
  runs = refl;
  well_formed = v;
  frames = e ∙ sym (append-nil fs);
}
fill buf fs (x ∷ es) s v e good = elim (Bool-cases (x.type == memmap_usable)) [
  | inr skip ↦ fill_skipped buf fs x es s skip (fill buf fs es s v e (rw (skip, IsGood) at good))
  | inl take ↦
      let both : Acceptable buf fs x × IsGood buf (fs ++ whole x ∷ []) es =
        rw (take, IsGood) at good in
      let one = accepts buf x s v (subst (λ gs. Acceptable buf gs x) (sym e) both.0) in
      fill_taken buf fs x es s take one (
        fill buf (fs ++ whole x ∷ []) es one.after one.well_formed
          (one.frames ∙ ap (λ gs. gs ++ whole x ∷ []) e) both.1)
]

-- Start-up with an aligned `BLOCK_BUF`, on a memory map whose usable entries are acceptable one after
-- the other: it does not panic, and the manager is well-formed and has the whole pages of each usable
-- entry, in the map's order, all unused.
pub set_up_memory-Filled :
    (buf : ℕ) (es : List MemmapEntry) (m : Words)
    → 0 < buf
    → buf % 8 ≡ 0
    → IsGood buf [] es
    → (s : Pmm) × (set_up_memory buf es m ≡ done s)
      × IsPmm buf s
      × (map view s.regions ≡ frames_of es)
      × (s.free_bytes ≡ unused_bytes (frames_of es))
unfolding set_up_memory
set_up_memory-Filled buf es m positive aligned good =
    let ready_pmm = initialize-IsPmm buf m positive aligned in
    let filled = fill buf [] es (ready buf m) ready_pmm.1 refl good in
    (
      filled.after,
      rw ready_pmm.0 filled.runs,
      filled.well_formed,
      filled.frames,
      filled.well_formed.total ∙ ap unused_bytes filled.frames,
    )
