-- ===== src/DeviceTree/Bounds.antt =====
-- The cells of the nodes through the whole of `parse_from_blob`: new nodes have none.
use octiron.Base.{
  ℕ, zero, suc, ◌+◌, ◌%◌, ◌≡◌, not, ◌==◌, none, Run, done, Ensures, Ensures-bind, Ensures-skip,
  Ensures-if, Ensures-Option, Ensures-Bool, Ensures-done, returned, faulted, halted, ◌&&◌,
}
use octiron.Number.{Bytes, u64, load, read_big_endian32, flip_endianness32, flip_endianness64}
use octiron.Errors.{Error}
use octiron.Slab.{assert}
use octiron.View.{View}
use octiron.DeviceTree.{DeviceTree}
use octiron.DeviceTree.Parse.{
  Parser, Token, Next, again, finished, token_of, handle, read_reserved, parse_structures,
}
use octiron.DeviceTree.Rewrite.{parse_from_blob}
use octiron.DeviceTree.Small.{AreSmall, Keeps-AreSmall, rewrite_pass-AreSmall, SmallResult}
use octiron.DeviceTree.Entered.{
  emplace_region-Keeps, parse_node-AreSmall, pre_parse_property-AreSmall,
}

module _ (hhdm_base text_fuel : ℕ) (m : Bytes) where
  -- The tree of a state of the loop.
  abbrev NextSmall : Next → Type 0
  NextSmall (again p) = AreSmall p.tree
  NextSmall (finished p) = AreSmall p.tree

  handle-AreSmall :
      (structures strings : ℕ) (t : Token) (p : Parser)
      → AreSmall p.tree
      → Ensures NextSmall (handle hhdm_base text_fuel m structures strings t p)
  unfolding handle
  handle-AreSmall structures strings Token.begin_node p all =
      Ensures-bind
        (parse_node-AreSmall hhdm_base text_fuel m p.current structures p.offset p.tree all)
        λ out all'. returned all'
  handle-AreSmall structures strings Token.end_node p all =
      Ensures-Option p.current faulted λ c. returned all
  handle-AreSmall structures strings Token.prop p all =
      Ensures-bind
        (pre_parse_property-AreSmall hhdm_base text_fuel m p.current structures strings p.offset
          p.tree all)
        λ out all'. returned all'
  handle-AreSmall structures strings Token.nop p all = returned all
  handle-AreSmall structures strings Token.end p all =
      Ensures-Option p.current (returned all) λ c. halted
  handle-AreSmall structures strings Token.unknown p all = halted

  Next-AreSmall :
      (next : Next) (k : Parser → Run DeviceTree)
      → NextSmall next
      → ((p : Parser) → AreSmall p.tree → Ensures AreSmall (k p))
      → Ensures AreSmall (elim next [ again p ↦ k p | finished p ↦ done p.tree ])
  Next-AreSmall (again p) k all h = h p all
  Next-AreSmall (finished p) k all h = returned all

  parse_structures-AreSmall :
      (fuel structures strings : ℕ) (p : Parser)
      → AreSmall p.tree
      → Ensures AreSmall (parse_structures hhdm_base text_fuel m fuel structures strings p)
  unfolding parse_structures
  parse_structures-AreSmall zero structures strings p all = halted
  parse_structures-AreSmall (suc fuel) structures strings p all =
      Ensures-skip (assert (p.offset % 4 == 0)) λ _.
        Ensures-bind
          (handle-AreSmall structures strings
            (token_of (read_big_endian32 m (structures + p.offset)))
            (record p { offset = u64 (p.offset + 4) }) all)
          λ next all'.
            Next-AreSmall next (parse_structures hhdm_base text_fuel m fuel structures strings) all'
              (parse_structures-AreSmall fuel structures strings)

  read_reserved-AreSmall :
      (fuel rsvmap : ℕ) (d : DeviceTree)
      → AreSmall d
      → Ensures AreSmall (read_reserved hhdm_base text_fuel m fuel rsvmap d)
  unfolding read_reserved
  read_reserved-AreSmall zero rsvmap d all = halted
  read_reserved-AreSmall (suc fuel) rsvmap d all =
      Ensures-Bool (not (load 8 m rsvmap == 0) && not (load 8 m (rsvmap + 8) == 0))
        (Ensures-bind
          (emplace_region-Keeps hhdm_base
            (record {
              address = flip_endianness64 (load 8 m rsvmap);
              size = flip_endianness64 (load 8 m (rsvmap + 8));
            })
            d)
          λ d' e. read_reserved-AreSmall fuel rsvmap d' (Keeps-AreSmall d d' e all))
        (returned all)

  -- `parse_from_blob` keeps every node's cells within what the kernel asserts when it reads `reg` and
  -- `ranges`, at most 3 for an address and at most 2 for a size, whatever the blob holds, on every
  -- path that returns, those with an error included.
  pub parse_from_blob-AreSmall :
      (fuel : ℕ) (root_name : View) (dtb : ℕ) (d : DeviceTree) (out : Error × DeviceTree)
      → AreSmall d
      → parse_from_blob hhdm_base text_fuel m fuel root_name dtb d ≡ done out
      → AreSmall out.1
  unfolding parse_from_blob
  parse_from_blob-AreSmall fuel root_name dtb d out all = Ensures-done whole
    where
      structures : ℕ
      structures = dtb + flip_endianness32 (load 4 m (dtb + 8))

      strings : ℕ
      strings = dtb + flip_endianness32 (load 4 m (dtb + 12))

      whole :
          Ensures
            (SmallResult hhdm_base text_fuel m)
            (parse_from_blob hhdm_base text_fuel m fuel root_name dtb d)
      whole = Ensures-if (not (flip_endianness32 (load 4 m dtb) == 0xD00DFEED)) (returned all) (
          Ensures-bind
            (read_reserved-AreSmall fuel (dtb + flip_endianness32 (load 4 m (dtb + 16))) d all)
            λ d₁ all₁.
              Ensures-bind
                (parse_structures-AreSmall fuel structures strings
                  (record { current = none; offset = 0; depth = 0; tree = d₁ }) all₁)
                λ d₂ all₂. rewrite_pass-AreSmall hhdm_base text_fuel m fuel root_name d₂ all₂)
