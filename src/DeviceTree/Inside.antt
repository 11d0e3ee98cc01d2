-- ===== src/DeviceTree/Inside.antt =====
-- A new node with all that is inside.
use octiron.Base.{ℕ, suc, ◌<◌, ◌≡◌, ◌≢◌, ◌∙◌, refl, ap, some, List, [], arith}
use octiron.Number.{Bytes}
use octiron.View.{View}
use octiron.Stack.{Ref, Stack}
use octiron.DeviceTree.{DeviceTree, Node, Property, Data}
use octiron.DeviceTree.Layout.{Forest, nil, tree}
use octiron.DeviceTree.Grown.{
  KeepsProperties, Grown, KeepsProperties-ArePropertiesOf, Keeps-AreTreesOf, lower-AreTreesOf,
}
use octiron.DeviceTree.Enter.{Entered}
use octiron.DeviceTree.Places.{Places}
use octiron.DeviceTree.Own.{nest-Owns}

module _ (hhdm_base most n text_fuel low : ℕ) (m : Bytes) (name : View) (d : DeviceTree) where
  -- A new node with its body is one more tree in front of its parent's children.
  pub Entered-Grown :
      (c : Ref) (i k low₂ : ℕ) (f : List (View × Data) → List (View × Data)) (g : Forest → Forest)
      (d₂ : DeviceTree)
      → c.buffer < low
      → c.index < d.node_stack.size
      → (e : Entered hhdm_base most n text_fuel low m name d c)
      → Grown e.new.ref i k f g e.new.low' low₂ e.new.after d₂
      → Grown c (suc i) k (λ ps. ps) (λ ts. tree name 0 0 (f []) (g nil) ts) low low₂ d d₂
  Entered-Grown c i k low₂ f g d₂ buffer old e h =
      let new = e.new in
      let sizes = ap (λ (s : Stack). s.size) new.property_stack in
      let up : d₂.nodes c ≡ record (d.nodes c) { children = some new.ref } =
        h.old_nodes c (omega (arith, new.rises)) (omega (arith, new.node_size))
          (λ q. omega (arith, q, new.index))
        ∙ e.parent in
      let same_properties = λ (q : Ref) (b : q.buffer < low) (l : q.index < d.property_stack.size).
        h.old_properties q (omega (arith, new.rises)) (omega (arith, sizes))
        ∙ ap (λ (s : Ref → Property). s q) new.same_properties in
      let kp : KeepsProperties low low₂ d d₂ = record {
        rises = omega (arith, new.rises, h.rises);
        more = omega (arith, h.property_size, sizes);
        same = same_properties;
      } in
      let old_nodes =
        λ (q : Ref) (b : q.buffer < low) (l : q.index < d.node_stack.size) (ne : q.index ≢ c.index).
          h.old_nodes q (omega (arith, new.rises)) (omega (arith, new.node_size))
            (λ w. omega (arith, w, new.index))
          ∙ e.old_nodes q b l ne in
      record {
        rises = kp.rises;
        node_size = omega (arith, h.node_size, new.node_size);
        property_size = omega (arith, h.property_size, sizes);
        old_nodes = old_nodes;
        old_properties = same_properties;
        kept = rw up (record {
          name = refl;
          parent = refl;
          next_sibling = refl;
          address_cells = refl;
          size_cells = refl;
        });
        properties = λ ps v.
            rw up (KeepsProperties-ArePropertiesOf low low₂ d d₂ (d.nodes c).properties ps kp v);
        children = λ ts v. (
          new.ref,
          ap (λ (x : Node). x.children) up,
          omega (arith, new.ref_below, h.rises),
          omega (arith, new.index),
          omega (arith, new.index, new.node_size, h.node_size),
          h.kept.name ∙ ap (λ (x : Node). x.name) e.inside,
          h.kept.parent ∙ ap (λ (x : Node). x.parent) e.inside,
          h.kept.address_cells ∙ ap (λ (x : Node). x.address_cells) e.inside,
          h.kept.size_cells ∙ ap (λ (x : Node). x.size_cells) e.inside,
          h.properties [] (ap (λ (x : Node). x.properties) e.inside),
          lower-AreTreesOf low₂ (suc new.ref.index) (suc c.index) d₂ (some new.ref)
              (d₂.nodes new.ref).children (g nil) (omega (arith, new.index))
              (h.children nil (ap (λ (x : Node). x.children) e.inside)),
          rw (h.kept.next_sibling ∙ ap (λ (x : Node). x.next_sibling) e.inside) (
              Keeps-AreTreesOf low low₂ (suc c.index) (suc c.index) d d₂ (some c)
                (d.nodes c).children ts (omega arith) kp
                (record {
                  more = omega (arith, new.node_size, h.node_size);
                  same = λ q b above l. old_nodes q b l λ w. omega (arith, w);
                })
                v),
        );
        places = λ from_node from_property rs ps inner ts l o.
            let new_properties = ap (λ (x : Node). x.properties) e.inside in
            let (rs', inner', o') =
              h.places (suc d.node_stack.size) d.property_stack.size [] [] Places.nil nil
                (omega (arith, new.index))
                (record {
                  node_start = omega (arith, new.node_size);
                  property_start = omega (arith, sizes);
                  own = new_properties;
                  children = ap (λ (x : Node). x.children) e.inside;
                  distinct_properties = tt;
                  distinct_nodes = tt;
                  properties_within = tt;
                  nodes_within = tt;
                }) in
            (
              rs,
              Places.at new.ref rs' inner' inner,
              nest-Owns c new.ref name low low₂ from_node from_property rs ps inner ts rs' (f [])
                  inner' (g nil) d d₂ l up (h.kept.name ∙ ap (λ (x : Node). x.name) e.inside)
                  (h.kept.parent ∙ ap (λ (x : Node). x.parent) e.inside)
                  (h.kept.address_cells ∙ ap (λ (x : Node). x.address_cells) e.inside)
                  (h.kept.size_cells ∙ ap (λ (x : Node). x.size_cells) e.inside)
                  (h.kept.next_sibling ∙ ap (λ (x : Node). x.next_sibling) e.inside)
                  (omega (arith, new.ref_below, h.rises)) new.index
                  (omega (arith, new.index, new.node_size, h.node_size))
                  (omega (arith, new.rises, h.rises)) old_nodes same_properties o o',
            );
        stays = λ room.
            let (buffer, capacity) = new.stays (omega (arith, room)) in
            let (buffer', capacity') = h.stays (omega (arith, room, new.node_size, capacity)) in
            (buffer' ∙ buffer, capacity' ∙ capacity);
      }
