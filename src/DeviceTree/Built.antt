-- ===== src/DeviceTree/Built.antt =====
-- A blob with one tree, and the stores that the loop over the tokens builds from it.
use mathlib.Core.List.{append-nil}
use octiron.Base.{
  ℕ, suc, ◌+◌, ◌%◌, ◌/◌, ◌^◌, sym, ◌≤◌, ◌<◌, ◌≡◌, ◌∙◌, ◌==◌, refl, ap, true, none, some, List, [],
  done, arith,
}
use octiron.Number.{Bytes, load, read_big_endian32, flip_endianness32}
use octiron.View.{View}
use octiron.Stack.{Ref, Stack, new_size}
use octiron.DeviceTree.{DeviceTree, Node, size_of_node}
use octiron.DeviceTree.Parse.{Parser, Token, handle, parse_structures, read_reserved}
use octiron.DeviceTree.Places.{Places, TreesAt, AreDistinct, node_places, property_places}
use octiron.DeviceTree.Owned.{before-NotIn}
use octiron.DeviceTree.Layout.{
  Body, Forest, IsText, Spells, padded, tokens, count_nodes, count_properties, pushes,
  properties_onto, children_onto, AreTreesOf,
}
use octiron.DeviceTree.Grown.{lower-AreTreesOf}
use octiron.DeviceTree.Build.{IsStocked, IsEnough}
use octiron.DeviceTree.Enter.{WithNode, enter_root}
use octiron.DeviceTree.Rounds.{Parsed, round, Spells-le, Spells-aligned}
use octiron.DeviceTree.Trees.{parsed, handle_begin, inside}

-- The blob at `dtb` has no reservation and holds one tree, with this root and body.
pub record IsBlob (m : Bytes) (text_fuel dtb : ℕ) (name : View) (b : Body) : Type 0 where
  pub structures : ℕ
  pub strings : ℕ
  pub to : ℕ
  pub magic : flip_endianness32 (load 4 m dtb) ≡ 0xD00DFEED
  pub at_structures : dtb + flip_endianness32 (load 4 m (dtb + 8)) ≡ structures
  pub at_strings : dtb + flip_endianness32 (load 4 m (dtb + 12)) ≡ strings
  pub no_reservation : load 8 m (dtb + flip_endianness32 (load 4 m (dtb + 16))) ≡ 0
  pub begins : read_big_endian32 m (structures + 0) ≡ 1
  pub root : IsText m text_fuel (structures + 4) name
  pub spells : Spells m text_fuel structures strings b (4 + padded (name.size + 1)) to
  pub ends : read_big_endian32 m (structures + to) ≡ 9
  pub small : to + 4 < 2 ^ 64

module _ (hhdm_base text_fuel : ℕ) (m : Bytes) (structures strings : ℕ) where
  -- The last round.
  last_round :
      (p : Parser) (fuel : ℕ)
      → p.current ≡ none
      → p.offset % 4 ≡ 0
      → read_big_endian32 m (structures + p.offset) ≡ 9
      → parse_structures hhdm_base text_fuel m (suc fuel) structures strings p ≡ done p.tree
  unfolding parse_structures handle
  last_round p fuel closed a t =
      let holds : (p.offset % 4 == 0) ≡ true = ground (arith, a) in rw (holds, t, closed) refl

module _ (hhdm_base text_fuel : ℕ) (m : Bytes) where
  pub no_reserved :
      (fuel rsvmap : ℕ) (d : DeviceTree)
      → load 8 m rsvmap ≡ 0
      → read_reserved hhdm_base text_fuel m (suc fuel) rsvmap d ≡ done d
  unfolding read_reserved
  no_reserved fuel rsvmap d e = rw (e, read_reserved) refl

-- The stores that the loop over the tokens leaves, and what stands in them.
pub record Built (hhdm_base text_fuel fuel : ℕ) (m : Bytes) (structures strings : ℕ) (name : View)
    (b : Body) (d : DeviceTree) : Type 0 where
  pub after : DeviceTree
  pub root : Ref
  pub low : ℕ
  pub runs :
      parse_structures hhdm_base text_fuel m fuel structures strings
        (record { current = none; offset = 0; depth = 0; tree = d })
      ≡ done after
  pub first : root.index ≡ d.node_stack.size
  pub node_count : after.node_stack.size ≡ d.node_stack.size + suc (count_nodes b)
  pub property_count : after.property_stack.size ≡ d.property_stack.size + count_properties b
  pub is_tree :
      AreTreesOf after low root.index none
        (some root)
        (Forest.tree name 0 0 (properties_onto b []) (children_onto b Forest.nil) Forest.nil)
  pub own_places : List Ref
  pub inner_places : Places
  pub is_placed :
      TreesAt after none
        (some root)
        (Places.at root own_places inner_places Places.nil)
        (Forest.tree name 0 0 (properties_onto b []) (children_onto b Forest.nil) Forest.nil)
  pub distinct_nodes : AreDistinct (node_places (Places.at root own_places inner_places Places.nil))
  pub distinct_properties :
      AreDistinct (property_places (Places.at root own_places inner_places Places.nil))
  pub stays :
      d.node_stack.size ≡ d.node_stack.capacity
      → d.node_stack.size + suc (count_nodes b)
        ≤ new_size size_of_node d.node_stack.capacity / size_of_node
      → after.node_stack.buffer ≡ root.buffer

pub built :
    (hhdm_base most places text_fuel low rest : ℕ) (m : Bytes) (dtb : ℕ) (name : View) (b : Body)
    (d : DeviceTree)
    → IsEnough most places
    → (blob : IsBlob m text_fuel dtb name b) → d.node_stack.size + suc (count_nodes b) ≤ places
    → d.property_stack.size + count_properties b ≤ places
    → IsStocked hhdm_base most (suc (pushes b + 0)) low d
    → Built hhdm_base text_fuel (suc (tokens b + suc rest)) m blob.structures blob.strings name b d
built hhdm_base most places text_fuel low rest m dtb name b d enough blob nodes properties stocked =
    let p : Parser = record { current = none; offset = 0; depth = 0; tree = d } in
    let entered =
      enter_root hhdm_base most (pushes b + 0) text_fuel low m name d places enough
        (omega (arith, nodes)) stocked in
    let new : WithNode hhdm_base most (pushes b + 0) text_fuel low m name d none = entered.0 in
    let own = entered.1 in
    let sizes = ap (λ (x : Stack). x.size) new.property_stack in
    let r = new.ref in
    let start = 4 + padded (name.size + 1) in
    let past = Spells-le m text_fuel blob.structures blob.strings b start blob.to blob.spells in
    let p₁ = inside name p (r, new.after) in
    let begun =
      handle_begin hhdm_base text_fuel m blob.structures blob.strings name p blob.to (r, new.after)
        blob.root (omega (arith, past)) (omega (arith, blob.small)) new.runs in
    let one : Parsed hhdm_base text_fuel m blob.structures blob.strings most places enough 0 b r
        new.low' p₁ blob.to =
      parsed hhdm_base text_fuel m blob.structures blob.strings most places enough 0 b r new.low' p₁
        blob.to
        (record {
          open_node = refl;
          aligned = omega arith;
          small = omega (arith, blob.small);
          spells = blob.spells;
          buffer = new.ref_below;
          old = omega (arith, new.index, new.node_size);
          nodes = omega (arith, nodes, new.node_size);
          properties = omega (arith, properties, sizes);
          stocked = new.stocked;
        }) in
    let g = one.grown in
    let from_property = new.after.property_stack.size in
    let (own_places, inner_places, owned) =
      g.places (suc r.index) from_property [] [] Places.nil Forest.nil (omega arith) (record {
        node_start = omega (arith, new.index, new.node_size);
        property_start = omega arith;
        own = ap (λ (x : Node). x.properties) own;
        children = ap (λ (x : Node). x.children) own;
        distinct_properties = tt;
        distinct_nodes = tt;
        properties_within = tt;
        nodes_within = tt;
      }) in
    record {
      after = one.after.tree;
      root = r;
      low = one.low';
      runs =
          round hhdm_base text_fuel m blob.structures blob.strings p p₁ Token.begin_node refl
            (omega arith) (rw blob.begins refl) begun (tokens b + suc rest)
          ∙ one.runs (suc rest)
          ∙ last_round hhdm_base text_fuel m blob.structures blob.strings one.after rest
              (one.current ∙ ap (λ (x : Node). x.parent) own)
              (rw one.offset (
                Spells-aligned m text_fuel blob.structures blob.strings b start blob.to
                  (omega arith) blob.spells))
              (rw one.offset blob.ends);
      first = new.index;
      node_count = omega (arith, g.node_size, new.node_size);
      property_count = omega (arith, g.property_size, sizes);
      is_tree = (
        r,
        refl,
        omega (arith, new.ref_below, g.rises),
        omega arith,
        omega (arith, g.node_size, new.index, new.node_size),
        g.kept.name ∙ ap (λ (x : Node). x.name) own,
        g.kept.parent ∙ ap (λ (x : Node). x.parent) own,
        g.kept.address_cells ∙ ap (λ (x : Node). x.address_cells) own,
        g.kept.size_cells ∙ ap (λ (x : Node). x.size_cells) own,
        g.properties [] (ap (λ (x : Node). x.properties) own),
        lower-AreTreesOf one.low' (suc r.index) r.index one.after.tree (some r)
            (one.after.tree.nodes r).children (children_onto b Forest.nil) (omega arith)
            (g.children Forest.nil (ap (λ (x : Node). x.children) own)),
        g.kept.next_sibling ∙ ap (λ (x : Node). x.next_sibling) own,
      );
      own_places = own_places;
      inner_places = inner_places;
      is_placed = (
        refl,
        g.kept.name ∙ ap (λ (x : Node). x.name) own,
        g.kept.parent ∙ ap (λ (x : Node). x.parent) own,
        g.kept.address_cells ∙ ap (λ (x : Node). x.address_cells) own,
        g.kept.size_cells ∙ ap (λ (x : Node). x.size_cells) own,
        owned.own,
        owned.children,
        g.kept.next_sibling ∙ ap (λ (x : Node). x.next_sibling) own,
      );
      distinct_nodes = rw (append-nil (node_places inner_places)) (
        before-NotIn one.low' (suc r.index) one.after.tree.node_stack.size r
            (node_places inner_places) (omega arith) owned.nodes_within,
        owned.distinct_nodes,
      );
      distinct_properties =
          rw (append-nil (property_places inner_places)) owned.distinct_properties;
      stays = λ full room.
          (g.stays (omega (arith, new.node_size, new.first_capacity full, room))).0
          ∙ sym new.ref_buffer;
    }
