-- ===== src/DeviceTree/Aligned.antt =====
-- The assertion at the head of the loop over the tokens.
use octiron.Base.{
  ℕ, zero, suc, ◌+◌, ◌%◌, ◌≡◌, refl, true, ◌==◌, Run, done, fault, halt, ◌>>=◌, arith,
}
use octiron.Number.{Bytes, u64, read_big_endian32}
use octiron.DeviceTree.{DeviceTree}
use octiron.DeviceTree.Parse.{Parser, Next, again, finished, token_of, handle, parse_structures}
use octiron.DeviceTree.Blob.{next_offset, handle_aligned}

bind-cong {ℓ κ} :
    {A : Type ℓ} {B : Type κ} (r : Run A) {f g : A → Run B}
    → ((a : A) → r ≡ done a → f a ≡ g a)
    → (r >>= f) ≡ (r >>= g)
bind-cong (done a) h = h a refl
bind-cong fault h = refl
bind-cong halt h = refl

-- Two loops that agree on aligned offsets agree behind a round.
Next-cong :
    (next : Next) {f g : Parser → Run DeviceTree}
    → next_offset next % 4 ≡ 0
    → ((p : Parser) → p.offset % 4 ≡ 0 → f p ≡ g p)
    → (elim next [ again p ↦ f p | finished p ↦ done p.tree ])
      ≡ (elim next [ again p ↦ g p | finished p ↦ done p.tree ])
Next-cong (again p) a h = h p a
Next-cong (finished p) a h = refl

module _ (hhdm_base text_fuel : ℕ) (m : Bytes) where
  -- The loop over the tokens without its assertion.
  pub parse_unasserted : (fuel structures strings : ℕ) → Parser → Run DeviceTree
  parse_unasserted zero structures strings p = halt
  parse_unasserted (suc fuel) structures strings p = do
    next ←
        handle hhdm_base text_fuel m structures strings
          (token_of (read_big_endian32 m (structures + p.offset)))
          (record p { offset = u64 (p.offset + 4) })
    elim next [
      | again p' ↦ parse_unasserted fuel structures strings p'
      | finished p' ↦ done p'.tree
    ]

  -- The assertion at the head of the loop over the tokens never stops the kernel: from an offset that
  -- is a multiple of 4, whatever the blob holds, the loop does what it does without the assertion.
  pub parse_structures_unasserted :
      (fuel structures strings : ℕ) (p : Parser)
      → p.offset % 4 ≡ 0
      → parse_structures hhdm_base text_fuel m fuel structures strings p
        ≡ parse_unasserted fuel structures strings p
  unfolding parse_structures parse_unasserted
  parse_structures_unasserted zero structures strings p a = refl
  parse_structures_unasserted (suc fuel) structures strings p a =
      let holds : (p.offset % 4 == 0) ≡ true = ground (arith, a) in
      rw holds (
        bind-cong _ λ next e.
          Next-cong next
            (handle_aligned hhdm_base text_fuel m structures strings _ _ next (omega (arith, a)) e)
            (parse_structures_unasserted fuel structures strings))
