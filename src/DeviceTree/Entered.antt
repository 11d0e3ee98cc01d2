-- ===== src/DeviceTree/Entered.antt =====
-- `enter_node` and `pre_parse_property`: the cells of the nodes as the tree grows.
use octiron.Base.{
  ℕ, ◌+◌, refl, not, ◌==◌, Option, none, some, arith, Ensures, Ensures-bind, Ensures-skip,
  Ensures-if, Ensures-Option, returned, faulted,
}
use octiron.Number.{Bytes, read_big_endian32}
use octiron.Slab.{assert}
use octiron.View.{View, view, from_null_term}
use octiron.Pmm.Take.{alloc_noerr}
use octiron.Bump.{hhdm_phys_to_virt}
use octiron.Stack.{Ref, Stacked, copy, grow, push_back, new_size}
use octiron.DeviceTree.{
  Node, Property, ReservedRegion, Data, DeviceTree, set_node, size_of_node, size_of_property,
  size_of_region, emplace_node, emplace_property, emplace_region,
}
use octiron.DeviceTree.Parse.{parse_node, pre_parse_property, enter_node, add_property}
use octiron.DeviceTree.Small.{IsSmall, AreSmall, Keeps-AreSmall, set_node-AreSmall}
use octiron.DeviceTree.Keeps.{Keeps}

-- A store whose nodes are all small.
abbrev AllSmall : Stacked Node → Type 0
AllSmall t = (r : Ref) → IsSmall (t.items r)

copy-AllSmall :
    (old new n : ℕ) (t : Stacked Node) → AllSmall t → (r : Ref) → IsSmall (copy old new n t.items r)
copy-AllSmall old new n t all r =
    ground (arith, all r, all (record { buffer = old; index = r.index }))

grow-AllSmall :
    (hhdm_base : ℕ) (t : Stacked Node)
    → AllSmall t
    → Ensures AllSmall (grow hhdm_base size_of_node t)
unfolding grow
grow-AllSmall hhdm_base t all =
    let bytes = new_size size_of_node t.stack.capacity in
    Ensures-if (t.stack.size == t.stack.capacity)
      (Ensures-skip (alloc_noerr bytes t.pmm) λ (new_pa, s).
        Ensures-skip (assert (not (new_pa == 0))) λ _. returned (
          copy-AllSmall t.stack.buffer (hhdm_phys_to_virt hhdm_base new_pa) t.stack.capacity t all))
      (returned all)

push_back-AllSmall :
    (hhdm_base : ℕ) (n : Node) (t : Stacked Node)
    → IsSmall n
    → AllSmall t
    → Ensures (λ out. AllSmall out.1) (push_back hhdm_base size_of_node n t)
unfolding push_back
push_back-AllSmall hhdm_base n t small all =
    Ensures-bind (grow-AllSmall hhdm_base t all) λ t' all'. returned λ r. ground (arith, all' r)

emplace_node-AreSmall :
    (hhdm_base : ℕ) (n : Node) (d : DeviceTree)
    → IsSmall n
    → AreSmall d
    → Ensures (λ out. AreSmall out.1) (emplace_node hhdm_base n d)
unfolding emplace_node
emplace_node-AreSmall hhdm_base n d small all =
    Ensures-bind
      (push_back-AllSmall hhdm_base n
        (record { pmm = d.pmm; stack = d.node_stack; items = d.nodes }) small all)
      λ out all'. returned all'

emplace_property-Keeps :
    (hhdm_base : ℕ) (x : Property) (d : DeviceTree)
    → Ensures (λ out. Keeps d out.1) (emplace_property hhdm_base x d)
unfolding emplace_property
emplace_property-Keeps hhdm_base x d =
    Ensures-skip
      (push_back hhdm_base size_of_property x
        (record { pmm = d.pmm; stack = d.property_stack; items = d.properties }))
      λ out. returned refl

pub emplace_region-Keeps :
    (hhdm_base : ℕ) (x : ReservedRegion) (d : DeviceTree)
    → Ensures (Keeps d) (emplace_region hhdm_base x d)
unfolding emplace_region
emplace_region-Keeps hhdm_base x d =
    Ensures-skip
      (push_back hhdm_base size_of_region x
        (record { pmm = d.pmm; stack = d.reserved_stack; items = d.reserved_regions }))
      λ out. returned refl

module _ (hhdm_base text_fuel : ℕ) (m : Bytes) where
  enter_node-AreSmall :
      (name : View) (current : Option Ref) (d : DeviceTree)
      → AreSmall d
      → Ensures (λ out. AreSmall out.1) (enter_node hhdm_base text_fuel m name current d)
  unfolding enter_node
  enter_node-AreSmall name current d all =
      let n : Node = record {
        name = name;
        address_cells = 0;
        size_cells = 0;
        properties = none;
        parent = current;
        children = none;
        next_sibling = none;
      } in
      Ensures-bind (emplace_node-AreSmall hhdm_base n d (omega arith) all) λ (r, d') all'.
        Ensures-Option current (returned all') λ c.
          let linked =
            set_node r (record (d'.nodes r) { next_sibling = (d'.nodes c).children }) d' in
          let all'' =
            set_node-AreSmall r (record (d'.nodes r) { next_sibling = (d'.nodes c).children }) d'
              (all' r) all' in
          returned (
            set_node-AreSmall c (record (linked.nodes c) { children = some r }) linked (all'' c)
              all'')

  add_property-AreSmall :
      (current : Option Ref) (name value : View) (d : DeviceTree)
      → AreSmall d
      → Ensures AreSmall (add_property hhdm_base text_fuel m current name value d)
  unfolding add_property
  add_property-AreSmall none name value d all = faulted
  add_property-AreSmall (some c) name value d all =
      let x : Property = record {
        name = name;
        next_property = (d.nodes c).properties;
        value = Data.raw value;
      } in
      Ensures-bind (emplace_property-Keeps hhdm_base x d) λ (r, d') e.
        let all' = Keeps-AreSmall d d' e all in
        returned
          (set_node-AreSmall c (record (d'.nodes c) { properties = some r }) d' (all' c) all')

  pub parse_node-AreSmall :
      (current : Option Ref) (structures offset : ℕ) (d : DeviceTree)
      → AreSmall d
      → Ensures
          (λ out. AreSmall out.2)
          (parse_node hhdm_base text_fuel m current structures offset d)
  unfolding parse_node
  parse_node-AreSmall current structures offset d all =
      Ensures-skip (from_null_term text_fuel (structures + offset) m)
        λ name. Ensures-bind (enter_node-AreSmall name current d all) λ (r, d') all'. returned all'

  pub pre_parse_property-AreSmall :
      (current : Option Ref) (structures strings offset : ℕ) (d : DeviceTree)
      → AreSmall d
      → Ensures
          (λ out. AreSmall out.1)
          (pre_parse_property hhdm_base text_fuel m current structures strings offset d)
  unfolding pre_parse_property
  pre_parse_property-AreSmall current structures strings offset d all =
      let property_length = read_big_endian32 m (structures + offset) in
      let name_offset = read_big_endian32 m (structures + offset + 4) in
      Ensures-skip (from_null_term text_fuel (strings + name_offset) m) λ name.
        Ensures-bind
          (add_property-AreSmall current name (view (structures + offset + 8) property_length) d
            all)
          λ d' all'. returned all'
