-- ===== src/DeviceTree/Enter.antt =====
-- One new node, in a stack that the manager supplies.
use octiron.Base.{ℕ, suc, ◌/◌, ◌≤◌, ◌<◌, ◌≡◌, ◌≢◌, ◌∙◌, refl, ap, Option, none, some, done, arith}
use octiron.Number.{Bytes}
use octiron.View.{View}
use octiron.Stack.{Ref, new_size}
use octiron.Stack.Supply.{Placed, place, put_self, put_other}
use octiron.DeviceTree.{DeviceTree, Node, set_node, size_of_node, emplace_node}
use octiron.DeviceTree.Parse.{enter_node}
use octiron.DeviceTree.Build.{IsStocked, IsEnough}

module _ (hhdm_base most n text_fuel low : ℕ) (m : Bytes) (name : View) (d : DeviceTree) where
  abbrev pub new_node : Option Ref → Node
  new_node parent = record {
    name = name;
    address_cells = 0;
    size_cells = 0;
    properties = none;
    parent = parent;
    children = none;
    next_sibling = none;
  }

  -- The stores with the new node, which is linked to its parent or has none.
  pub record WithNode (parent : Option Ref) : Type 0 where
    pub ref : Ref
    pub after : DeviceTree
    pub low' : ℕ
    pub runs : enter_node hhdm_base text_fuel m name parent d ≡ done (ref, after)
    pub stocked : IsStocked hhdm_base most n low' after
    pub rises : low ≤ low'
    pub ref_below : ref.buffer < low'
    pub index : ref.index ≡ d.node_stack.size
    pub node_size : after.node_stack.size ≡ suc d.node_stack.size
    pub property_stack : after.property_stack ≡ d.property_stack
    pub same_properties : after.properties ≡ d.properties
    pub ref_buffer : ref.buffer ≡ after.node_stack.buffer
    pub stays :
        d.node_stack.size < d.node_stack.capacity
        → (after.node_stack.buffer ≡ d.node_stack.buffer)
          × (after.node_stack.capacity ≡ d.node_stack.capacity)
    pub first_capacity :
        d.node_stack.size ≡ d.node_stack.capacity
        → after.node_stack.capacity ≡ new_size size_of_node d.node_stack.capacity / size_of_node

  pub record Entered (c : Ref) : Type 0 where
    pub new : WithNode (some c)
    pub old_nodes :
        (r : Ref)
        → r.buffer < low
        → r.index < d.node_stack.size
        → r.index ≢ c.index
        → new.after.nodes r ≡ d.nodes r
    pub parent : new.after.nodes c ≡ record (d.nodes c) { children = some new.ref }
    pub inside :
        new.after.nodes new.ref ≡ record (new_node (some c)) { next_sibling = (d.nodes c).children }

  module _ (places : ℕ) (enough : IsEnough most places) (fits : d.node_stack.size ≤ places)
      (s : IsStocked hhdm_base most (suc n) low d) where
    placed :
        (parent : Option Ref)
        → Placed hhdm_base most n size_of_node low
            (record { pmm = d.pmm; stack = d.node_stack; items = d.nodes })
            (new_node parent)
    placed parent =
        place hhdm_base most n size_of_node low
          (record { pmm = d.pmm; stack = d.node_stack; items = d.nodes }) (new_node parent)
          s.supplies s.node_buffer (omega (arith, enough.covers)) enough.small

    pub enter_root : (new : WithNode none) × (new.after.nodes new.ref ≡ new_node none)
    unfolding enter_node emplace_node
    enter_root =
        let pl = placed none in
        (
          record {
            ref = pl.ref;
            after = record d {
              pmm = pl.after.pmm;
              node_stack = pl.after.stack;
              nodes = pl.after.items;
            };
            low' = pl.low';
            runs = rw pl.runs refl;
            stocked = record {
              supplies = pl.supplies;
              node_buffer = pl.buffer_below;
              property_buffer = omega (arith, s.property_buffer, pl.rises);
            };
            rises = pl.rises;
            ref_below = pl.ref_below;
            index = pl.index;
            node_size = pl.size;
            property_stack = refl;
            same_properties = refl;
            ref_buffer = pl.ref_buffer;
            stays = pl.stays;
            first_capacity = pl.first_capacity;
          },
          pl.element,
        )

    pub enter : (c : Ref) → c.buffer < low → c.index < d.node_stack.size → Entered c
    unfolding enter_node emplace_node
    enter c below old =
        let pl = placed (some c) in
        let d₁ : DeviceTree = record d {
          pmm = pl.after.pmm;
          node_stack = pl.after.stack;
          nodes = pl.after.items;
        } in
        let up : d₁.nodes c ≡ d.nodes c = pl.old c below old in
        let x : Node = record (d₁.nodes pl.ref) { next_sibling = (d₁.nodes c).children } in
        let d₂ = set_node pl.ref x d₁ in
        let up₂ : d₂.nodes c ≡ d.nodes c =
          put_other d₁.nodes pl.ref c x (λ e. omega (arith, e, pl.index)) ∙ up in
        let y : Node = record (d₂.nodes c) { children = some pl.ref } in
        record {
          new = record {
            ref = pl.ref;
            after = set_node c y d₂;
            low' = pl.low';
            runs = rw pl.runs refl;
            stocked = record {
              supplies = pl.supplies;
              node_buffer = pl.buffer_below;
              property_buffer = omega (arith, s.property_buffer, pl.rises);
            };
            rises = pl.rises;
            ref_below = pl.ref_below;
            index = pl.index;
            node_size = pl.size;
            property_stack = refl;
            same_properties = refl;
            ref_buffer = pl.ref_buffer;
            stays = pl.stays;
            first_capacity = pl.first_capacity;
          };
          old_nodes = λ r b h ne.
              put_other d₂.nodes c r y ne
              ∙ put_other d₁.nodes pl.ref r x (λ e. omega (arith, e, pl.index))
              ∙ pl.old r b h;
          parent =
              put_self d₂.nodes c y ∙ ap (λ (z : Node). record z { children = some pl.ref }) up₂;
          inside =
              put_other d₂.nodes c pl.ref y (λ e. omega (arith, e, pl.index))
              ∙ put_self d₁.nodes pl.ref x
              ∙ rw (pl.element, up) refl;
        }
