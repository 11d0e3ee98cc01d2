-- ===== src/Stack/Supply.antt =====
-- A manager that serves what growing stacks ask for, always above the memory given out before, and
-- what `push_back` does with it.
use octiron.Base.{
  ℕ, zero, suc, ◌+◌, ◌*◌, ◌/◌, ◌^◌, ◌≤◌, ◌<◌, ◌≡◌, ◌≢◌, ◌∙◌, inl, inr, refl, false, ◌==◌, done,
  arith, Bool-cases, ap,
}
use octiron.Pmm.{Pmm}
use octiron.Pmm.Take.{alloc_noerr}
use octiron.Bump.{hhdm_phys_to_virt}
use octiron.Stack.{Stacked, Ref, copy, put, new_size, grow, push_back}
use octiron.Stack.Push.{new_size_lem}

module _ (hhdm_base most : ℕ) where
  -- The next `n` requests, of at most `most` bytes each, get memory from `low` on, as it is mapped, each
  -- above those before.
  abbrev pub Supplies : (n : ℕ) → Pmm → (low : ℕ) → Type 0
  Supplies zero s low = Unit {0}
  Supplies (suc n) s low =
      (bytes : ℕ)
      → 0 < bytes
      → bytes ≤ most
      → (a : ℕ) × (s' : Pmm) × (alloc_noerr bytes s ≡ done (a, s'))
        × (0 < a)
        × (low ≤ hhdm_phys_to_virt hhdm_base a)
        × Supplies n s' (suc (hhdm_phys_to_virt hhdm_base a))

  pub Supplies-less : (n : ℕ) (s : Pmm) (low : ℕ) → Supplies (suc n) s low → Supplies n s low
  Supplies-less zero s low h = tt
  Supplies-less (suc n) s low h = λ bytes p b.
      let (a, s', runs, pos, above, more) = h bytes p b in
      (a, s', runs, pos, above, Supplies-less n s' (suc (hhdm_phys_to_virt hhdm_base a)) more)

module _ {ℓ} {A : Type ℓ} where
  -- A store at a place, and at another.
  pub put_self : (f : Ref → A) (r : Ref) (x : A) → put f r x r ≡ x
  put_self f r x = ground arith

  pub put_other : (f : Ref → A) (r q : Ref) (x : A) → q.index ≢ r.index → put f r x q ≡ f q
  put_other f r q x ne = ground (arith, ne)

  copy_other : (old new n : ℕ) (f : Ref → A) (q : Ref) → q.buffer ≢ new → copy old new n f q ≡ f q
  copy_other old new n f q ne = ground (arith, ne)

module _ {ℓ} {A : Type ℓ} (hhdm_base most n size_of low : ℕ) (t : Stacked A) where
  -- The new element and the new stack: nothing below `low` is written.
  pub record Placed (v : A) : Type ℓ where
    pub ref : Ref
    pub after : Stacked A
    pub low' : ℕ
    pub runs : push_back hhdm_base size_of v t ≡ done (ref, after)
    pub index : ref.index ≡ t.stack.size
    pub size : after.stack.size ≡ suc t.stack.size
    pub rises : low ≤ low'
    pub ref_below : ref.buffer < low'
    pub ref_buffer : ref.buffer ≡ after.stack.buffer
    pub stays :
        t.stack.size < t.stack.capacity
        → (after.stack.buffer ≡ t.stack.buffer) × (after.stack.capacity ≡ t.stack.capacity)
    pub first_capacity :
        t.stack.size ≡ t.stack.capacity
        → after.stack.capacity ≡ new_size size_of t.stack.capacity / size_of
    pub buffer_below : after.stack.buffer < low'
    pub supplies : Supplies hhdm_base most n after.pmm low'
    pub element : after.items ref ≡ v
    pub old : (r : Ref) → r.buffer < low → r.index < t.stack.size → after.items r ≡ t.items r

  pub place :
      (v : A)
      → Supplies hhdm_base most (suc n) t.pmm low
      → t.stack.buffer < low
      → 2 * (t.stack.size * size_of) + 12288 ≤ most
      → most < 2 ^ 62
      → Placed v
  unfolding push_back grow
  place v supplies below fits small = elim (Bool-cases (t.stack.size == t.stack.capacity)) [
    | inr free ↦
        let ref : Ref = record { buffer = t.stack.buffer; index = t.stack.size } in
        record {
          ref = ref;
          after = record t {
            stack = record t.stack { size = t.stack.size + 1 };
            items = put t.items ref v;
          };
          low' = low;
          runs = rw free refl;
          index = refl;
          size = omega arith;
          rises = omega arith;
          ref_below = below;
          ref_buffer = refl;
          stays = λ room. (refl, refl);
          first_capacity = λ e. absurd (ground (arith, e, free));
          buffer_below = below;
          supplies = Supplies-less hhdm_base most n t.pmm low supplies;
          element = put_self t.items ref v;
          old = λ r b i. put_other t.items ref r v λ e. omega (arith, e, i);
        }
    | inl full ↦
        let e : t.stack.capacity ≡ t.stack.size = ground (arith, full) in
        let bytes = new_size size_of t.stack.capacity in
        let same : t.stack.capacity * size_of ≡ t.stack.size * size_of =
          ap (λ (c : ℕ). c * size_of) e in
        let fit : t.stack.capacity * size_of < 2 ^ 62 = omega (arith, same) in
        let (a, s', runs, pos, above, more) =
          supplies bytes (omega (arith, new_size_lem size_of t.stack.capacity fit))
            (omega (arith, same, new_size_lem size_of t.stack.capacity fit)) in
        let b = hhdm_phys_to_virt hhdm_base a in
        let ref : Ref = record { buffer = b; index = t.stack.size } in
        let not_null : (a == 0) ≡ false = ground (arith, pos) in
        let items = copy t.stack.buffer b t.stack.capacity t.items in
        record {
          ref = ref;
          after = record {
            pmm = s';
            stack = record { size = t.stack.size + 1; capacity = bytes / size_of; buffer = b };
            items = put items ref v;
          };
          low' = suc b;
          runs = rw (full, runs, not_null) refl;
          index = refl;
          size = omega arith;
          rises = omega (arith, above);
          ref_below = omega arith;
          ref_buffer = refl;
          stays = λ room. absurd (omega (arith, e, room));
          first_capacity = λ q. refl;
          buffer_below = omega arith;
          supplies = more;
          element = put_self items ref v;
          old = λ r l i.
              put_other items ref r v (λ q. omega (arith, q, i))
              ∙ copy_other t.stack.buffer b t.stack.capacity t.items r
                  (λ q. omega (arith, q, l, above));
        }
  ]
