-- ===== src/DeviceTree/Blob.antt =====
-- What the parser does with a blob, as far as it gets.
use octiron.Base.{
  ℕ, zero, suc, ◌+◌, ◌%◌, ◌≡◌, ◌≢◌, inl, inr, refl, ◌∙◌, ap, true, false, not, ◌&&◌, ◌==◌, Option,
  Run, done, fault, halt, ◌>>=◌, arith, Bool-cases,
}
use octiron.Number.{
  Bytes, u64, load, align_up, flip_endianness32, flip_endianness64, sub64, read_big_endian32,
}
use octiron.Base.Bits.{bit_and_clear}
use octiron.Stack.{Ref}
use octiron.Errors.{Error}
use octiron.View.{View, from_null_term}
use octiron.DeviceTree.{DeviceTree, ReservedRegion, emplace_region}
use octiron.DeviceTree.Parse.{
  Parser, Token, Next, again, finished, handle, read_reserved, parse_node, pre_parse_property,
  enter_node, add_property,
}
use octiron.DeviceTree.Rewrite.{parse_from_blob}

-- Inversion of a bind that returns.
done-bind {ℓ κ} :
    {A : Type ℓ} {B : Type κ} (r : Run A) (f : A → Run B) {b : B}
    → (r >>= f) ≡ done b
    → (a : A) × (r ≡ done a) × (f a ≡ done b)
done-bind (done a) f e = (a, refl, e)
done-bind fault f e = cc
done-bind halt f e = cc

module _ (hhdm_base text_fuel : ℕ) (m : Bytes) where
  -- The loop over the memory reservations returns only if its first entry is the end mark, and then
  -- nothing has been recorded.
  read_reserved-done :
      (fuel rsvmap : ℕ) (d d' : DeviceTree)
      → read_reserved hhdm_base text_fuel m fuel rsvmap d ≡ done d'
      → (not (load 8 m rsvmap == 0) && not (load 8 m (rsvmap + 8) == 0)) ≡ false
  unfolding read_reserved
  read_reserved-done zero rsvmap d d' e = cc
  read_reserved-done (suc fuel) rsvmap d d' e =
      elim (Bool-cases (not (load 8 m rsvmap == 0) && not (load 8 m (rsvmap + 8) == 0))) [
        | inr stop ↦ stop
        | inl go ↦
            let region : ReservedRegion = record {
              address = flip_endianness64 (load 8 m rsvmap);
              size = flip_endianness64 (load 8 m (rsvmap + 8));
            } in
            let rest =
              done-bind (emplace_region hhdm_base region d)
                (read_reserved hhdm_base text_fuel m fuel rsvmap) (rw (go, read_reserved) at e) in
            read_reserved-done fuel rsvmap rest.0 d' rest.2
      ]

  -- A blob with the right magic number whose first memory reservation is not empty is never parsed:
  -- with whatever fuel, the loop over the reservations does not come to an end, since it never goes
  -- on to the next entry.
  pub parse_from_blob_stuck :
      (fuel : ℕ) (root_name : View) (dtb : ℕ) (d : DeviceTree) (result : Error × DeviceTree)
      → flip_endianness32 (load 4 m dtb) ≡ 0xD00DFEED
      → let rsvmap = dtb + flip_endianness32 (load 4 m (dtb + 16)) in
        load 8 m rsvmap ≢ 0
        → load 8 m (rsvmap + 8) ≢ 0
        → parse_from_blob hhdm_base text_fuel m fuel root_name dtb d ≢ done result
  unfolding parse_from_blob
  parse_from_blob_stuck fuel root_name dtb d result magic address size e =
      let rsvmap = dtb + flip_endianness32 (load 4 m (dtb + 16)) in
      let right : (flip_endianness32 (load 4 m dtb) == 0xD00DFEED) ≡ true = ground (arith, magic) in
      let rest =
        done-bind (read_reserved hhdm_base text_fuel m fuel rsvmap d) _
          (rw (right, parse_from_blob) at e) in
      let stopped = read_reserved-done fuel rsvmap d rest.0 rest.1 in
      ground (arith, stopped, address, size)

align_up_four : (v : ℕ) → align_up v 4 % 4 ≡ 0
unfolding align_up
align_up_four v =
    ap (λ (t : ℕ). t % 4) (bit_and_clear 62 2 (sub64 (u64 (v + 4)) 1) refl (omega arith))
    ∙ omega arith

-- Where the next token is read.
abbrev pub next_offset : Next → ℕ
next_offset (again p) = p.offset
next_offset (finished p) = p.offset

done-next : {a b : Next} → done a ≡ done b → next_offset b ≡ next_offset a
done-next e = cc

module _ (hhdm_base text_fuel : ℕ) (m : Bytes) where
  parse_node_aligned :
      (current : Option Ref) (structures offset : ℕ) (d : DeviceTree) (out : Ref × ℕ × DeviceTree)
      → offset % 4 ≡ 0
      → parse_node hhdm_base text_fuel m current structures offset d ≡ done out
      → out.1 % 4 ≡ 0
  unfolding parse_node
  parse_node_aligned current structures offset d out a e =
      let named = done-bind (from_null_term text_fuel (structures + offset) m) _ e in
      let entered = done-bind (enter_node hhdm_base text_fuel m named.0 current d) _ named.2 in
      let same : out.1 ≡ u64 (offset + align_up (named.0.size + 1) 4) = cc (entered.2) in
      omega (arith, same, a, align_up_four (named.0.size + 1))

  pre_parse_property_aligned :
      (current : Option Ref) (structures strings offset : ℕ) (d : DeviceTree) (out : ℕ × DeviceTree)
      → offset % 4 ≡ 0
      → pre_parse_property hhdm_base text_fuel m current structures strings offset d ≡ done out
      → out.0 % 4 ≡ 0
  unfolding pre_parse_property
  pre_parse_property_aligned current structures strings offset d out a e =
      let property_length = read_big_endian32 m (structures + offset) in
      let named = done-bind (from_null_term text_fuel _ m) _ e in
      let added = done-bind (add_property hhdm_base text_fuel m current named.0 _ d) _ named.2 in
      let same : out.0 ≡ u64 (offset + 8 + align_up property_length 4) = cc (added.2) in
      omega (arith, same, a, align_up_four property_length)

  -- Every round of the loop over the tokens leaves the place of the next token at a multiple of 4,
  -- whatever the token is and however long the names and values are, so that the assertion at the
  -- loop's head never stops the kernel.
  pub handle_aligned :
      (structures strings : ℕ) (t : Token) (p : Parser) (next : Next)
      → p.offset % 4 ≡ 0
      → handle hhdm_base text_fuel m structures strings t p ≡ done next
      → next_offset next % 4 ≡ 0
  unfolding handle
  handle_aligned structures strings Token.begin_node p next a e =
      let r =
        done-bind (parse_node hhdm_base text_fuel m p.current structures p.offset p.tree) _ e in
      let same : next_offset next ≡ r.0.1 = done-next r.2 in
      omega (arith, same, parse_node_aligned p.current structures p.offset p.tree r.0 a r.1)
  handle_aligned structures strings Token.end_node p next a e = ground (arith, e)
  handle_aligned structures strings Token.prop p next a e =
      let r =
        done-bind
          (pre_parse_property hhdm_base text_fuel m p.current structures strings p.offset p.tree) _
          e in
      let same : next_offset next ≡ r.0.0 = done-next r.2 in
      omega (
        arith,
        same,
        pre_parse_property_aligned p.current structures strings p.offset p.tree r.0 a r.1,
      )
  handle_aligned structures strings Token.nop p next a e = omega (arith, done-next e)
  handle_aligned structures strings Token.end p next a e = ground (arith, e)
  handle_aligned structures strings Token.unknown p next a e = cc
