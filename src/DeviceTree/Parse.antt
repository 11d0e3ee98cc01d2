-- ===== src/DeviceTree/Parse.antt =====
-- `parse_from_blob` up to the rewriting pass. The blob is memory `m`, which nothing writes to;
-- `text_fuel` bounds the length of a text, and `fuel` the rounds of a loop.
use octiron.Base.{
  ℕ, zero, suc, ◌+◌, ◌%◌, true, false, not, ◌&&◌, ◌==◌, if◌then◌else◌, Option, none, some, Run,
  done, fault, halt, ◌>>=◌, ◌>>◌,
}
use octiron.Number.{Bytes, u64, sub64, align_up, load, read_big_endian32, flip_endianness64}
use octiron.Slab.{assert}
use octiron.View.{View, view, from_null_term}
use octiron.Stack.{Ref}
use octiron.DeviceTree.{DeviceTree, Data, set_node, emplace_region, emplace_node, emplace_property}

-- The state of the loop over the tokens.
pub record Parser : Type 0 where
  pub current : Option Ref
  pub offset : ℕ
  pub depth : ℕ
  pub tree : DeviceTree

pub data Token : Type 0 where
  begin_node end_node prop nop end unknown : Token

abbrev pub token_of : ℕ → Token
token_of t =
    if t == 0x01
    then begin_node
    else if t == 0x02
    then end_node
    else if t == 0x03
    then prop
    else if t == 0x04
    then nop
    else if t == 0x09
    then end
    else unknown

-- How a round ends: with the next one, or behind the loop.
pub data Next : Type 0 where
  again finished : Parser → Next

module _ (hhdm_base text_fuel : ℕ) (m : Bytes) where
  -- What `parse_node` does with the name: the new node is put in front of its parent's children.
  unfoldable pub enter_node : View → Option Ref → DeviceTree → Run (Ref × DeviceTree)
  enter_node name current d = do
    (r, d') ←
        emplace_node hhdm_base
          (record {
            name = name;
            address_cells = 0;
            size_cells = 0;
            properties = none;
            parent = current;
            children = none;
            next_sibling = none;
          })
          d
    elim current [
      | none ↦ done (r, d')
      | some c ↦
          let linked =
            set_node r (record (d'.nodes r) { next_sibling = (d'.nodes c).children }) d' in
          done (r, set_node c (record (linked.nodes c) { children = some r }) linked)
    ]

  unfoldable pub parse_node :
      (current : Option Ref) (structures offset : ℕ) → DeviceTree → Run (Ref × ℕ × DeviceTree)
  parse_node current structures offset d = do
    name ← from_null_term text_fuel (structures + offset) m
    (r, d') ← enter_node name current d
    done (r, u64 (offset + align_up (name.size + 1) 4), d')

  -- What `pre_parse_property` does with the name and the value.
  unfoldable pub add_property : Option Ref → View → View → DeviceTree → Run DeviceTree
  add_property none name value d = fault
  add_property (some c) name value d = do
    (r, d') ←
        emplace_property hhdm_base
          (record { name = name; next_property = (d.nodes c).properties; value = Data.raw value }) d
    done (set_node c (record (d'.nodes c) { properties = some r }) d')

  unfoldable pub pre_parse_property :
      (current : Option Ref) (structures strings offset : ℕ) → DeviceTree → Run (ℕ × DeviceTree)
  pre_parse_property current structures strings offset d = do
    let property_length = read_big_endian32 m (structures + offset)
    let name_offset = read_big_endian32 m (structures + offset + 4)
    name ← from_null_term text_fuel (strings + name_offset) m
    d' ← add_property current name (view (structures + offset + 8) property_length) d
    done (u64 (offset + 8 + align_up property_length 4), d')

  -- The `switch`; `panic` never returns. The offset is behind the token already.
  unfoldable pub handle : (structures strings : ℕ) → Token → Parser → Run Next
  handle structures strings begin_node p = do
    (r, offset, d) ← parse_node p.current structures p.offset p.tree
    done (again (record { current = some r; offset = offset; depth = u64 (p.depth + 1); tree = d }))
  handle structures strings end_node p = elim p.current [
    | none ↦ fault
    | some c ↦
        done (again (record p { current = (p.tree.nodes c).parent; depth = sub64 p.depth 1 }))
  ]
  handle structures strings prop p = do
    (offset, d) ← pre_parse_property p.current structures strings p.offset p.tree
    done (again (record p { offset = offset; tree = d }))
  handle structures strings nop p = done (again p)
  handle structures strings end p = elim p.current [ none ↦ done (finished p) | some c ↦ halt ]
  handle structures strings unknown p = halt

  unfoldable pub parse_structures : (fuel structures strings : ℕ) → Parser → Run DeviceTree
  parse_structures zero structures strings p = halt
  parse_structures (suc fuel) structures strings p = do
    assert (p.offset % 4 == 0)
    next ←
        handle structures strings (token_of (read_big_endian32 m (structures + p.offset)))
          (record p { offset = u64 (p.offset + 4) })
    elim next [
      | again p' ↦ parse_structures fuel structures strings p'
      | finished p' ↦ done p'.tree
    ]

  -- The loop over the memory reservations. It reads the first entry in every round.
  unfoldable pub read_reserved : (fuel rsvmap : ℕ) → DeviceTree → Run DeviceTree
  read_reserved zero rsvmap d = halt
  read_reserved (suc fuel) rsvmap d =
      elim (not (load 8 m rsvmap == 0) && not (load 8 m (rsvmap + 8) == 0)) [
        | false ↦ done d
        | true ↦
            emplace_region hhdm_base
              (record {
                address = flip_endianness64 (load 8 m rsvmap);
                size = flip_endianness64 (load 8 m (rsvmap + 8));
              })
              d
            >>= read_reserved fuel rsvmap
      ]
