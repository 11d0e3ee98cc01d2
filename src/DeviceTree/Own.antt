-- ===== src/DeviceTree/Own.antt =====
-- One more property, and one more tree, among what an open node owns.
use mathlib.Core.List.{append_assoc}
use octiron.Base.{ℕ, suc, ◌≤◌, ◌<◌, ◌≡◌, ◌≢◌, ap, subst, some, List, [], ◌∷◌, ◌++◌, All, arith}
use octiron.View.{View}
use octiron.Stack.{Ref}
use octiron.DeviceTree.{DeviceTree, Data, Node, Property}
use octiron.DeviceTree.Layout.{Forest}
use octiron.DeviceTree.Places.{
  Places, node_places, property_places, append-NotIn, AreDistinct, PropertiesAt, TreesAt, SameNodes,
  SameProperties, same-PropertiesAt, same-TreesAt,
}
use octiron.DeviceTree.Owned.{
  IsWithin, Owns, map-All, append-All, All-parts, widen, behind-NotIn, before-NotIn,
  insert-AreDistinct, insert-All,
}

-- The stores keep their elements below the bound, but the node at `c`.
module _ (c : Ref) (low low' from_node from_property : ℕ) (rs : List Ref) (ps : List (View × Data))
    (inner : Places) (ts : Forest) (d d' : DeviceTree) (front : c.index < from_node)
    (old_nodes : (q : Ref)
      → q.buffer < low
      → q.index < d.node_stack.size
      → q.index ≢ c.index
      → d'.nodes q ≡ d.nodes q)
    (old_properties : (q : Ref)
      → q.buffer < low
      → q.index < d.property_stack.size
      → d'.properties q ≡ d.properties q)
    (o : Owns d c low from_node from_property rs ps inner ts) where
  kept_properties : All (SameProperties d d') (rs ++ property_places inner)
  kept_properties =
      map-All (IsWithin low from_property d.property_stack.size) (SameProperties d d')
        (rs ++ property_places inner) (λ q (b, f, t). old_properties q b t) o.properties_within

  kept_nodes : All (SameNodes d d') (node_places inner)
  kept_nodes =
      map-All (IsWithin low from_node d.node_stack.size) (SameNodes d d') (node_places inner)
        (λ q (b, f, t). old_nodes q b t (λ e. omega (arith, e, f, front))) o.nodes_within

  -- What was owned is there yet.
  pub still :
      PropertiesAt d' (d.nodes c).properties rs ps
      × TreesAt d' (some c) (d.nodes c).children inner ts
  still =
      let (own, others) =
        All-parts (SameProperties d d') rs (property_places inner) kept_properties in
      (
        same-PropertiesAt d d' (d.nodes c).properties rs ps own o.own,
        same-TreesAt d d' (some c) (d.nodes c).children inner ts kept_nodes others o.children,
      )

pub add-Owns :
    (c r : Ref) (x : Property) (low low' from_node from_property : ℕ) (rs : List Ref)
    (ps : List (View × Data)) (inner : Places) (ts : Forest) (d d' : DeviceTree)
    → c.index < from_node
    → d'.nodes c ≡ record (d.nodes c) { properties = some r }
    → x.next_property ≡ (d.nodes c).properties
    → d'.properties r ≡ x
    → r.buffer < low'
    → r.index ≡ d.property_stack.size
    → d'.property_stack.size ≡ suc d.property_stack.size
    → d'.node_stack.size ≡ d.node_stack.size
    → low ≤ low'
    → ((q : Ref) → q.index ≢ c.index → d'.nodes q ≡ d.nodes q)
    → ((q : Ref)
        → q.buffer < low
        → q.index < d.property_stack.size
        → d'.properties q ≡ d.properties q)
    → Owns d c low from_node from_property rs ps inner ts
    → Owns d' c low' from_node from_property (r ∷ rs) ((x.name, x.value) ∷ ps) inner ts
add-Owns c r x low low' from_node from_property rs ps inner ts d d' front here next element below
      index more same rises old_nodes old_properties o =
    let (own, children) =
      still c low low' from_node from_property rs ps inner ts d d' front
        (λ q b l ne. old_nodes q ne) old_properties o in
    record {
      node_start = omega (arith, same, o.node_start);
      property_start = omega (arith, more, o.property_start);
      own = (
        ap (λ (n : Node). n.properties) here,
        ap (λ (p : Property). p.name) element,
        ap (λ (p : Property). p.value) element,
        rw (element, next) own,
      );
      children = rw here children;
      distinct_properties = (
        behind-NotIn low from_property d.property_stack.size r (rs ++ property_places inner)
            (omega (arith, index)) o.properties_within,
        o.distinct_properties,
      );
      distinct_nodes = o.distinct_nodes;
      properties_within = (
        (below, omega (arith, index, o.property_start), omega (arith, index, more)),
        widen low low' from_property d.property_stack.size d'.property_stack.size
            (rs ++ property_places inner) rises (omega (arith, more)) o.properties_within,
      );
      nodes_within =
          widen low low' from_node d.node_stack.size d'.node_stack.size (node_places inner) rises
            (omega (arith, same)) o.nodes_within;
    }

-- A new node at `r`, with what it owns itself, in front of the children.
pub nest-Owns :
    (c r : Ref) (name : View) (low low' from_node from_property : ℕ) (rs : List Ref)
    (ps : List (View × Data)) (inner : Places) (ts : Forest) (rs' : List Ref)
    (ps' : List (View × Data)) (inner' : Places) (ts' : Forest) (d d' : DeviceTree)
    → c.index < from_node
    → d'.nodes c ≡ record (d.nodes c) { children = some r }
    → (d'.nodes r).name ≡ name
    → (d'.nodes r).parent ≡ some c
    → (d'.nodes r).address_cells ≡ 0
    → (d'.nodes r).size_cells ≡ 0
    → (d'.nodes r).next_sibling ≡ (d.nodes c).children
    → r.buffer < low'
    → r.index ≡ d.node_stack.size
    → r.index < d'.node_stack.size
    → low ≤ low'
    → ((q : Ref)
        → q.buffer < low
        → q.index < d.node_stack.size
        → q.index ≢ c.index
        → d'.nodes q ≡ d.nodes q)
    → ((q : Ref)
        → q.buffer < low
        → q.index < d.property_stack.size
        → d'.properties q ≡ d.properties q)
    → Owns d c low from_node from_property rs ps inner ts
    → Owns d' r low' (suc d.node_stack.size) d.property_stack.size rs' ps' inner' ts'
    → Owns d' c low' from_node from_property rs ps
        (Places.at r rs' inner' inner)
        (Forest.tree name 0 0 ps' ts' ts)
nest-Owns c r name low low' from_node from_property rs ps inner ts rs' ps' inner' ts' d d' front
      here en up ea ez next below index more rises old_nodes old_properties o n =
    let (own, siblings) =
      still c low low' from_node from_property rs ps inner ts d d' front old_nodes old_properties
        o in
    let size = d.node_stack.size in
    let olds = property_places inner in
    let news = rs' ++ property_places inner' in
    let group : news ++ olds ≡ rs' ++ (property_places inner' ++ olds) =
      append_assoc rs' (property_places inner') olds in
    let old_within =
      widen low low' from_property d.property_stack.size d.property_stack.size (rs ++ olds) rises
        (omega arith) o.properties_within in
    let old_nodes_within =
      widen low low' from_node size size (node_places inner) rises (omega arith) o.nodes_within in
    record {
      node_start = omega (arith, o.node_start, index, more);
      property_start = omega (arith, o.property_start, n.property_start);
      own = rw here own;
      children =
          (ap (λ (x : Node). x.children) here, en, up, ea, ez, n.own, n.children, rw next siblings);
      distinct_properties =
          subst (λ (l : List Ref). AreDistinct (rs ++ l)) group
            (insert-AreDistinct low' from_property d.property_stack.size d'.property_stack.size low'
              rs news olds o.distinct_properties n.distinct_properties old_within
              n.properties_within);
      distinct_nodes = (
        append-NotIn r (node_places inner') (node_places inner)
            (before-NotIn low' (suc size) d'.node_stack.size r (node_places inner')
              (omega (arith, index)) n.nodes_within)
            (behind-NotIn low' from_node size r (node_places inner) (omega (arith, index))
              old_nodes_within),
        insert-AreDistinct low' from_node (suc size) d'.node_stack.size low' [] (node_places inner')
            (node_places inner) o.distinct_nodes n.distinct_nodes
            (widen low' low' from_node size (suc size) (node_places inner) (omega arith)
              (omega arith) old_nodes_within)
            n.nodes_within,
      );
      properties_within =
          subst
            (λ (l : List Ref). All (IsWithin low' from_property d'.property_stack.size) (rs ++ l))
            group
            (insert-All (IsWithin low' from_property d'.property_stack.size) rs news olds
              (widen low' low' from_property d.property_stack.size d'.property_stack.size
                (rs ++ olds) (omega arith) n.property_start old_within)
              (map-All (IsWithin low' d.property_stack.size d'.property_stack.size)
                (IsWithin low' from_property d'.property_stack.size) news
                (λ q k. omega (arith, k, o.property_start)) n.properties_within));
      nodes_within = (
        (below, omega (arith, index, o.node_start), more),
        append-All (IsWithin low' from_node d'.node_stack.size) (node_places inner')
            (node_places inner)
            (map-All (IsWithin low' (suc size) d'.node_stack.size)
              (IsWithin low' from_node d'.node_stack.size) (node_places inner')
              (λ q k. omega (arith, k, o.node_start)) n.nodes_within)
            (widen low' low' from_node size d'.node_stack.size (node_places inner) (omega arith)
              (omega (arith, index, more)) old_nodes_within),
      );
    }
