-- ===== src/DeviceTree/Build.antt =====
-- One new property, in a stack that the manager supplies.
use octiron.Base.{ℕ, suc, ◌+◌, ◌*◌, ◌^◌, ◌≤◌, ◌<◌, ◌≡◌, refl, ap, some, ◌∷◌, done, arith}
use octiron.Number.{Bytes}
use octiron.View.{View}
use octiron.Stack.{Ref, Stacked}
use octiron.Stack.Supply.{Supplies, Placed, place, put_self, put_other}
use octiron.DeviceTree.{
  DeviceTree, Node, Property, Data, set_node, size_of_property, emplace_property,
}
use octiron.DeviceTree.Parse.{add_property}
use octiron.DeviceTree.Own.{add-Owns}
use octiron.DeviceTree.Grown.{
  KeepsProperties, Grown, KeepsProperties-ArePropertiesOf, Keeps-AreTreesOf,
}

-- The manager serves the next `n` requests, and the stacks' buffers are below `low`.
pub record IsStocked (hhdm_base most n low : ℕ) (d : DeviceTree) : Type 0 where
  pub supplies : Supplies hhdm_base most n d.pmm low
  pub node_buffer : d.node_stack.buffer < low
  pub property_buffer : d.property_stack.buffer < low

-- A bound on the requests for stacks of so many elements.
pub record IsEnough (most places : ℕ) : Type 0 where
  pub covers : 160 * places + 12288 ≤ most
  pub small : most < 2 ^ 62

module _ (hhdm_base most n text_fuel low : ℕ) (m : Bytes) (c : Ref) (name : View) (value : View)
    (d : DeviceTree) where
  -- The stores with the new property.
  pub record WithProperty : Type 0 where
    pub after : DeviceTree
    pub low' : ℕ
    pub runs : add_property hhdm_base text_fuel m (some c) name value d ≡ done after
    pub stocked : IsStocked hhdm_base most n low' after
    pub grown : Grown c 0 1 (λ ps. (name, Data.raw value) ∷ ps) (λ ts. ts) low low' d after

  pub with_property :
      (places : ℕ)
      → IsEnough most places
      → d.property_stack.size ≤ places
      → IsStocked hhdm_base most (suc n) low d
      → WithProperty
  unfolding add_property emplace_property
  with_property places enough fits s =
      let x : Property = record {
        name = name;
        next_property = (d.nodes c).properties;
        value = Data.raw value;
      } in
      let t : Stacked Property = record {
        pmm = d.pmm;
        stack = d.property_stack;
        items = d.properties;
      } in
      let pl : Placed hhdm_base most n size_of_property low t x =
        place hhdm_base most n size_of_property low t x s.supplies s.property_buffer
          (omega (arith, enough.covers)) enough.small in
      let y : Node = record (d.nodes c) { properties = some pl.ref } in
      let d₁ : DeviceTree = record d {
        pmm = pl.after.pmm;
        property_stack = pl.after.stack;
        properties = pl.after.items;
      } in
      let d' = set_node c y d₁ in
      let kp : KeepsProperties low pl.low' d d' = record {
        rises = pl.rises;
        more = omega (arith, pl.size);
        same = pl.old;
      } in
      let own : d'.nodes c ≡ y = put_self d.nodes c y in
      record {
        after = d';
        low' = pl.low';
        runs = rw pl.runs refl;
        stocked = record {
          supplies = pl.supplies;
          node_buffer = omega (arith, s.node_buffer, pl.rises);
          property_buffer = pl.buffer_below;
        };
        grown = record {
          rises = pl.rises;
          node_size = omega arith;
          property_size = omega (arith, pl.size);
          old_nodes = λ q b h ne. put_other d.nodes c q y ne;
          old_properties = pl.old;
          kept = rw own (record {
            name = refl;
            parent = refl;
            next_sibling = refl;
            address_cells = refl;
            size_cells = refl;
          });
          properties = λ ps h. (
            pl.ref,
            ap (λ (z : Node). z.properties) own,
            pl.ref_below,
            omega (arith, pl.index, pl.size),
            ap (λ (z : Property). z.name) pl.element,
            ap (λ (z : Property). z.value) pl.element,
            rw pl.element
                (KeepsProperties-ArePropertiesOf low pl.low' d d' (d.nodes c).properties ps kp h),
          );
          children = λ ts h. rw own (
              Keeps-AreTreesOf low pl.low' (suc c.index) (suc c.index) d d' (some c)
                (d.nodes c).children ts (omega arith) kp
                (record {
                  more = omega arith;
                  same = λ q b above l. put_other d.nodes c q y λ e. omega (arith, e, above);
                })
                h);
          places = λ from_node from_property rs ps inner ts l o. (
            pl.ref ∷ rs,
            inner,
            add-Owns c pl.ref x low pl.low' from_node from_property rs ps inner ts d d' l own refl
                pl.element pl.ref_below pl.index (omega (arith, pl.size)) (omega arith) pl.rises
                (λ q ne. put_other d.nodes c q y ne) pl.old o,
          );
          stays = λ room. (refl, refl);
        };
      }
