-- ===== src/Stack/Push.antt =====
-- `push_back` as an append to a list.
use native.Mathlib.Nat.{le-div_iff_mul-le}
use octiron.Base.{
  ℕ, zero, suc, ◌+◌, ◌*◌, ◌/◌, ◌^◌, ◌≤◌, ◌<◌, ◌≡◌, ◌∙◌, ◌⊎◌, inl, inr, refl, true, false, ◌==◌,
  done, some, List, [], ◌∷◌, ◌++◌, map, length, get_elem?, length-append, arith, Bool-cases, subst,
}
use octiron.Number.{u64, align_up}
use octiron.Number.Align.{align_up_page}
use octiron.Errors.{ErrorCode, of_code, is_ok}
use octiron.Pmm.{Pmm}
use octiron.Pmm.Take.{alloc, alloc_noerr}
use octiron.Pmm.Spec.{Frames, view, give}
use octiron.Pmm.Invariant.{IsPmm}
use octiron.Pmm.Alloc.{pages, Allocated, AllocResult, alloc-AllocResult}
use octiron.Bump.{hhdm_phys_to_virt}
use octiron.Stack.{Stacked, Ref, at, copy, put, new_size, grow, push_back}

get_elem?-append_left {ℓ} :
    {A : Type ℓ} (xs ys : List A) (i : ℕ) → i < length xs → get_elem? (xs ++ ys) i ≡ get_elem? xs i
get_elem?-append_left [] ys i h = elim h [ ]
get_elem?-append_left (x ∷ xs) ys zero h = refl
get_elem?-append_left (x ∷ xs) ys (suc i) h = get_elem?-append_left xs ys i (omega arith)

get_elem?-append_last {ℓ} :
    {A : Type ℓ} (xs : List A) (v : A) (i : ℕ) → i ≡ length xs → get_elem? (xs ++ v ∷ []) i ≡ some v
get_elem?-append_last [] v zero h = refl
get_elem?-append_last [] v (suc i) h = absurd (omega arith)
get_elem?-append_last (x ∷ xs) v zero h = absurd (omega arith)
get_elem?-append_last (x ∷ xs) v (suc i) h = get_elem?-append_last xs v i (omega arith)

==_self : (n : ℕ) → (n == n) ≡ true
==_self n = ground arith

-- The stack holds the elements of the list.
pub record Holds {ℓ} {A : Type ℓ} (t : Stacked A) (xs : List A) : Type ℓ where
  pub fits : t.stack.size ≤ t.stack.capacity
  pub counted : length xs ≡ t.stack.size
  pub held : (i : ℕ) → i < t.stack.size → get_elem? xs i ≡ some (at t.stack t.items i)

-- What growth asks for is more than what the elements take, and at most about twice as much.
new_size_grows :
    (bytes : ℕ)
    → bytes < 2 ^ 62
    → let current = (bytes + 4095) / 4096 * 4096 in
      (bytes + 4096 ≤ (1 + current * 3 / 2 + 4095) / 4096 * 4096)
      × ((1 + current * 3 / 2 + 4095) / 4096 * 4096 ≤ 2 * bytes + 12288)
new_size_grows bytes h = (omega arith, omega arith)

pub new_size_lem :
    (size_of capacity : ℕ)
    → capacity * size_of < 2 ^ 62
    → (capacity * size_of + 4096 ≤ new_size size_of capacity)
      × (new_size size_of capacity + 4096 ≤ 2 ^ 64)
      × (new_size size_of capacity ≤ 2 * (capacity * size_of) + 12288)
new_size_lem size_of capacity h = sizes (capacity * size_of) h
  where
    sizes :
        (b : ℕ)
        → b < 2 ^ 62
        → let n = align_up (u64 (1 + u64 (align_up (u64 b) 4096 * 3) / 2)) 4096 in
          (b + 4096 ≤ n) × (n + 4096 ≤ 2 ^ 64) × (n ≤ 2 * b + 12288)
    sizes b h =
        let e₁ : u64 b ≡ b = omega arith in
        let e₂ : u64 ((b + 4095) / 4096 * 4096 * 3) ≡ (b + 4095) / 4096 * 4096 * 3 = omega arith in
        let e₃ : u64 (1 + (b + 4095) / 4096 * 4096 * 3 / 2) ≡ 1 + (b + 4095) / 4096 * 4096 * 3 / 2 =
          omega arith in
        rw
          (
            e₁,
            align_up_page b (omega arith),
            e₂,
            e₃,
            align_up_page (1 + (b + 4095) / 4096 * 4096 * 3 / 2) (omega arith),
          )
          ((new_size_grows b h).0, omega arith, (new_size_grows b h).1)

pub noerr_runs :
    (size a : ℕ) (s s' : Pmm)
    → alloc size false s ≡ done (of_code ErrorCode.success, some a, s')
    → alloc_noerr size s ≡ done (a, s')
unfolding alloc alloc_noerr is_ok
noerr_runs size a s s' e = rw e refl

module _ {ℓ} {A : Type ℓ} (buf hhdm_base size_of : ℕ) (t : Stacked A) (xs : List A)
    (some_size : 0 < size_of) (page_fits : size_of ≤ 4096) (v : IsPmm buf t.pmm) (held : Holds t xs)
    (bound : t.stack.capacity * size_of < 2 ^ 62) where
  -- The stack after `grow`, with a free place.
  record HasPlace : Type ℓ where
    after : Stacked A
    runs : grow hhdm_base size_of t ≡ done after
    well_formed : IsPmm buf after.pmm
    holds : Holds after xs
    place : after.stack.size < after.stack.capacity

  capacity_grows : t.stack.capacity < new_size size_of t.stack.capacity / size_of
  capacity_grows =
      let bytes = new_size_lem size_of t.stack.capacity bound in
      (le-div_iff_mul-le some_size).1 (omega (arith, bytes.0))

  grow_place : t.stack.size < t.stack.capacity → HasPlace
  unfolding grow
  grow_place h = record { after = t; runs = ground arith; well_formed = v; holds = held; place = h }

  grow_full :
      (a : ℕ) (fs : List Frames)
      → t.stack.size ≡ t.stack.capacity
      → give (pages (new_size size_of t.stack.capacity)) (map view t.pmm.regions) ≡ some (a, fs)
      → HasPlace
  unfolding grow
  grow_full a fs full gives =
      let bytes = new_size size_of t.stack.capacity in
      let sizes = new_size_lem size_of t.stack.capacity bound in
      let al : Allocated buf bytes t.pmm a fs =
        subst (AllocResult buf bytes t.pmm) gives (alloc-AllocResult buf bytes t.pmm v sizes.1) in
      let is_full : (t.stack.size == t.stack.capacity) ≡ true = ground arith in
      let not_null : (a == 0) ≡ false = ground (arith, al.above_zero) in
      let new_buffer = hhdm_phys_to_virt hhdm_base a in
      record {
        after = record {
          pmm = al.after;
          stack = record { size = t.stack.size; capacity = bytes / size_of; buffer = new_buffer };
          items = copy t.stack.buffer new_buffer t.stack.capacity t.items;
        };
        runs = rw (is_full, noerr_runs bytes a t.pmm al.after al.runs, not_null) refl;
        well_formed = al.well_formed;
        holds = record {
          fits = omega (arith, capacity_grows);
          counted = held.counted;
          held = λ i h. held.held i h ∙ ground arith;
        };
        place = omega (arith, capacity_grows);
      }

  -- There is a place, or the manager can give the memory for a larger buffer.
  abbrev pub CanPush : Type 0
  CanPush =
      (t.stack.size < t.stack.capacity)
      ⊎ ((a : ℕ) × (fs : List Frames) × (give (pages (new_size size_of t.stack.capacity))
              (map view t.pmm.regions)
            ≡ some (a, fs)))

  has_place : CanPush → HasPlace
  has_place (inl h) = grow_place h
  has_place (inr (a, fs, gives)) = elim (Bool-cases (t.stack.size == t.stack.capacity)) [
    | inl e ↦ grow_full a fs (ground (arith, e)) gives
    | inr e ↦ grow_place (ground (arith, e, held.fits))
  ]

  -- The stack with one more element.
  pub record Pushed (value : A) : Type ℓ where
    pub ref : Ref
    pub after : Stacked A
    pub runs : push_back hhdm_base size_of value t ≡ done (ref, after)
    pub well_formed : IsPmm buf after.pmm
    pub holds : Holds after (xs ++ value ∷ [])
    pub element : after.items ref ≡ value

  pushed : (value : A) → HasPlace → Pushed value
  unfolding push_back
  pushed value p =
      let ref : Ref = record { buffer = p.after.stack.buffer; index = p.after.stack.size } in
      record {
        ref = ref;
        after = record p.after {
          stack = record p.after.stack { size = p.after.stack.size + 1 };
          items = put p.after.items ref value;
        };
        runs = rw p.runs refl;
        well_formed = p.well_formed;
        holds = record {
          fits = omega (arith, p.place);
          counted = omega (arith, length-append xs (value ∷ []), p.holds.counted);
          held = λ i h. elim (Bool-cases (p.after.stack.size == i)) [
            | inl e ↦
                get_elem?-append_last xs value i (ground (arith, e, p.holds.counted))
                ∙ rw (==_self p.after.stack.buffer, e) refl
            | inr e ↦
                let below : i < p.after.stack.size = ground (arith, e, h) in
                get_elem?-append_left xs (value ∷ []) i (omega (arith, p.holds.counted))
                ∙ p.holds.held i below
                ∙ rw (==_self p.after.stack.buffer, e) refl
          ];
        };
        element = rw (==_self p.after.stack.buffer, ==_self p.after.stack.size) refl;
      }

  -- `push_back` is an append: on a stack that holds a list, with elements of a size from 1 to 4096
  -- bytes, less than 2 ^ 62 bytes in all, and with a free place or a manager that can give the memory
  -- for a larger buffer, it returns, the stack then holds the list with the element behind it, the
  -- address that comes back is the element's, and the manager stays well-formed.
  pub push_back-Holds : (value : A) → CanPush → Pushed value
  push_back-Holds value can = pushed value (has_place can)
