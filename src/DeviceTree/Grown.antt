-- ===== src/DeviceTree/Grown.antt =====
-- How the stores grow while a node is open. Below `low` are the buffers given out before.
use octiron.Base.{
  ℕ, suc, ◌+◌, ◌≤◌, ◌<◌, ◌≡◌, ◌≢◌, ◌∙◌, refl, ap, Option, some, List, [], ◌∷◌, arith,
}
use octiron.View.{View}
use octiron.Stack.{Ref}
use octiron.DeviceTree.{DeviceTree, Node, Data}
use octiron.DeviceTree.Layout.{Forest, nil, tree, ArePropertiesOf, AreTreesOf}
use octiron.DeviceTree.Places.{Places}
use octiron.DeviceTree.Owned.{Owns}

-- Properties are never written again.
pub record KeepsProperties (low low' : ℕ) (d d' : DeviceTree) : Type 0 where
  pub rises : low ≤ low'
  pub more : d.property_stack.size ≤ d'.property_stack.size
  pub same :
      (r : Ref)
      → r.buffer < low
      → r.index < d.property_stack.size
      → d'.properties r ≡ d.properties r

pub KeepsProperties-ArePropertiesOf :
    (low low' : ℕ) (d d' : DeviceTree) (p : Option Ref) (ps : List (View × Data))
    → KeepsProperties low low' d d'
    → ArePropertiesOf d low p ps
    → ArePropertiesOf d' low' p ps
KeepsProperties-ArePropertiesOf low low' d d' p [] k h = h
KeepsProperties-ArePropertiesOf low low' d d' p ((n, v) ∷ ps) k
      (r, e, buffer, below, name, value, rest) =
    let same = k.same r buffer below in
    (
      r,
      e,
      omega (arith, k.rises),
      omega (arith, k.more),
      ap (λ x. x.name) same ∙ name,
      ap (λ x. x.value) same ∙ value,
      rw same
          (KeepsProperties-ArePropertiesOf low low' d d' (d.properties r).next_property ps k rest),
    )

-- The nodes with places from `lo` on are kept.
pub record KeepsNodes (low lo : ℕ) (d d' : DeviceTree) : Type 0 where
  pub more : d.node_stack.size ≤ d'.node_stack.size
  pub same :
      (r : Ref)
      → r.buffer < low
      → lo ≤ r.index
      → r.index < d.node_stack.size
      → d'.nodes r ≡ d.nodes r

pub Keeps-AreTreesOf :
    (low low' lo lo' : ℕ) (d d' : DeviceTree) (parent p : Option Ref) (ts : Forest)
    → lo' ≤ lo
    → KeepsProperties low low' d d'
    → KeepsNodes low lo d d'
    → AreTreesOf d low lo parent p ts
    → AreTreesOf d' low' lo' parent p ts
Keeps-AreTreesOf low low' lo lo' d d' parent p nil le kp kn h = h
Keeps-AreTreesOf low low' lo lo' d d' parent p (tree n ac sc ps ts rest) le kp kn
      (r, e, buffer, above, below, name, up, a, s, props, inner, next) =
    let same = kn.same r buffer above below in
    (
      r,
      e,
      omega (arith, kp.rises),
      omega arith,
      omega (arith, kn.more),
      ap (λ x. x.name) same ∙ name,
      ap (λ x. x.parent) same ∙ up,
      ap (λ x. x.address_cells) same ∙ a,
      ap (λ x. x.size_cells) same ∙ s,
      rw same (KeepsProperties-ArePropertiesOf low low' d d' (d.nodes r).properties ps kp props),
      rw same
          (Keeps-AreTreesOf low low' lo lo' d d' (some r) (d.nodes r).children ts le kp kn inner),
      rw same (
          Keeps-AreTreesOf low low' lo lo' d d' parent (d.nodes r).next_sibling rest le kp kn next),
    )

-- The same stores, seen from a lower place.
pub lower-AreTreesOf :
    (low lo lo' : ℕ) (d : DeviceTree) (parent p : Option Ref) (ts : Forest)
    → lo' ≤ lo
    → AreTreesOf d low lo parent p ts
    → AreTreesOf d low lo' parent p ts
lower-AreTreesOf low lo lo' d parent p ts le h =
    Keeps-AreTreesOf low low lo lo' d d parent p ts le
      (record { rises = omega arith; more = omega arith; same = λ q b l. refl })
      (record { more = omega arith; same = λ q b a l. refl }) h

-- What a node keeps while it is open.
pub record KeepsNode (x y : Node) : Type 0 where
  pub name : y.name ≡ x.name
  pub parent : y.parent ≡ x.parent
  pub next_sibling : y.next_sibling ≡ x.next_sibling
  pub address_cells : y.address_cells ≡ x.address_cells
  pub size_cells : y.size_cells ≡ x.size_cells

-- The stores after some of the body of the node at `c`: so many new nodes and properties, and what
-- became of the node's own properties and children.
pub record Grown (c : Ref) (nodes_in properties_in : ℕ)
    (f : List (View × Data) → List (View × Data)) (g : Forest → Forest) (low low' : ℕ)
    (d d' : DeviceTree) : Type 0 where
  pub rises : low ≤ low'
  pub node_size : d'.node_stack.size ≡ d.node_stack.size + nodes_in
  pub property_size : d'.property_stack.size ≡ d.property_stack.size + properties_in
  pub old_nodes :
      (r : Ref)
      → r.buffer < low
      → r.index < d.node_stack.size
      → r.index ≢ c.index
      → d'.nodes r ≡ d.nodes r
  pub old_properties :
      (r : Ref)
      → r.buffer < low
      → r.index < d.property_stack.size
      → d'.properties r ≡ d.properties r
  pub kept : KeepsNode (d.nodes c) (d'.nodes c)
  pub properties :
      (ps : List (View × Data))
      → ArePropertiesOf d low (d.nodes c).properties ps
      → ArePropertiesOf d' low' (d'.nodes c).properties (f ps)
  pub children :
      (ts : Forest)
      → AreTreesOf d low (suc c.index) (some c) (d.nodes c).children ts
      → AreTreesOf d' low' (suc c.index) (some c) (d'.nodes c).children (g ts)
  pub places :
      (from_node from_property : ℕ) (rs : List Ref) (ps : List (View × Data)) (inner : Places)
      (ts : Forest)
      → c.index < from_node
      → Owns d c low from_node from_property rs ps inner ts
      → (rs' : List Ref) × (inner' : Places) × Owns d' c low' from_node from_property rs'
          (f ps)
          inner'
          (g ts)
  pub stays :
      d.node_stack.size + nodes_in ≤ d.node_stack.capacity
      → (d'.node_stack.buffer ≡ d.node_stack.buffer)
        × (d'.node_stack.capacity ≡ d.node_stack.capacity)

pub KeepsNode-trans : {x y z : Node} → KeepsNode x y → KeepsNode y z → KeepsNode x z
KeepsNode-trans h k = record {
  name = k.name ∙ h.name;
  parent = k.parent ∙ h.parent;
  next_sibling = k.next_sibling ∙ h.next_sibling;
  address_cells = k.address_cells ∙ h.address_cells;
  size_cells = k.size_cells ∙ h.size_cells;
}

pub KeepsNode-refl : (x : Node) → KeepsNode x x
KeepsNode-refl x = record {
  name = refl;
  parent = refl;
  next_sibling = refl;
  address_cells = refl;
  size_cells = refl;
}

pub Grown-refl :
    (c : Ref) (low : ℕ) (d : DeviceTree) → Grown c 0 0 (λ ps. ps) (λ ts. ts) low low d d
Grown-refl c low d = record {
  rises = omega arith;
  node_size = omega arith;
  property_size = omega arith;
  old_nodes = λ r b h ne. refl;
  old_properties = λ r b h. refl;
  kept = KeepsNode-refl (d.nodes c);
  properties = λ ps h. h;
  children = λ ts h. h;
  places = λ from_node from_property rs ps inner ts l h. (rs, inner, h);
  stays = λ room. (refl, refl);
}

pub Grown-trans :
    {c : Ref} {n k n' k' : ℕ} {f f' : List (View × Data) → List (View × Data)}
    {g g' : Forest → Forest} {low low₁ low₂ : ℕ} {d d₁ d₂ : DeviceTree}
    → Grown c n k f g low low₁ d d₁
    → Grown c n' k' f' g' low₁ low₂ d₁ d₂
    → Grown c (n + n') (k + k') (λ ps. f' (f ps)) (λ ts. g' (g ts)) low low₂ d d₂
Grown-trans {f = f} {g = g} a b = record {
  rises = omega (arith, a.rises, b.rises);
  node_size = omega (arith, a.node_size, b.node_size);
  property_size = omega (arith, a.property_size, b.property_size);
  old_nodes = λ r l h ne.
      b.old_nodes r (omega (arith, a.rises)) (omega (arith, a.node_size)) ne ∙ a.old_nodes r l h ne;
  old_properties = λ r l h.
      b.old_properties r (omega (arith, a.rises)) (omega (arith, a.property_size))
      ∙ a.old_properties r l h;
  kept = KeepsNode-trans a.kept b.kept;
  properties = λ ps h. b.properties (f ps) (a.properties ps h);
  children = λ ts h. b.children (g ts) (a.children ts h);
  places = λ from_node from_property rs ps inner ts l h.
      let (rs', inner', h') = a.places from_node from_property rs ps inner ts l h in
      b.places from_node from_property rs' (f ps) inner' (g ts) l h';
  stays = λ room.
      let (buffer, capacity) = a.stays (omega (arith, room)) in
      let (buffer', capacity') = b.stays (omega (arith, room, a.node_size, capacity)) in
      (buffer' ∙ buffer, capacity' ∙ capacity);
}

pub Grown-counts :
    {c : Ref} {n n' k k' : ℕ} {f : List (View × Data) → List (View × Data)} {g : Forest → Forest}
    {low low' : ℕ} {d d' : DeviceTree}
    → n ≡ n'
    → k ≡ k'
    → Grown c n k f g low low' d d'
    → Grown c n' k' f g low low' d d'
Grown-counts p q h = rw (← p, ← q) h
