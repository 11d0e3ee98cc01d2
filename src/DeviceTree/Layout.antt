-- ===== src/DeviceTree/Layout.antt =====
-- What a structure block says, and when the nodes and the properties of the parser's stacks are the
-- tree that it describes.
use octiron.Base.{ℕ, suc, ◌+◌, ◌*◌, ◌/◌, ◌≤◌, ◌<◌, ◌≡◌, ◌≢◌, Option, none, some, List, [], ◌∷◌}
use octiron.Number.{Bytes, read_big_endian32}
use octiron.View.{View}
use octiron.Stack.{Ref}
use octiron.DeviceTree.{DeviceTree, Data}

-- The tokens from within a node to its end, in order: properties, nodes inside and NOPs.
pub data Body : Type 0 where
  close : Body
  nop : Body → Body
  prop : (name value : View) → Body → Body
  child : (name : View) → (inner rest : Body) → Body

-- A list of trees: each with its name, its numbers of address and size cells, its properties as names
-- and values, and its children.
pub data Forest : Type 0 where
  nil : Forest
  tree :
      (name : View)
      → (address_cells size_cells : ℕ) → (properties : List (View × Data))
      → (children rest : Forest) → Forest

-- The place behind a text or a value, padded to four bytes.
abbrev pub padded : ℕ → ℕ
padded n = (n + 3) / 4 * 4

-- The bytes of a text: none is zero, but the one behind them.
pub record IsText (m : Bytes) (fuel p : ℕ) (v : View) : Type 0 where
  pub starts : v.ptr ≡ p
  pub short : v.size < fuel
  pub ends : m (v.ptr + v.size) ≡ 0
  pub inside : (i : ℕ) → i < v.size → m (v.ptr + i) ≢ 0

-- The structure block spells the body from one offset to the other, with its texts at `strings`.
module _ (m : Bytes) (fuel structures strings : ℕ) where
  abbrev pub token_at : ℕ → ℕ
  token_at o = read_big_endian32 m (structures + o)

  abbrev pub Spells : Body → (from to : ℕ) → Type 0
  Spells Body.close o e = (token_at o ≡ 2) × (e ≡ o + 4)
  Spells (Body.nop b) o e = (token_at o ≡ 4) × Spells b (o + 4) e
  Spells (Body.prop name value b) o e =
      (token_at o ≡ 3)
      × (read_big_endian32 m (structures + (o + 4)) ≡ value.size)
      × (structures + (o + 4) + 8 ≡ value.ptr)
      × IsText m fuel (strings + read_big_endian32 m (structures + (o + 4) + 4)) name
      × Spells b (o + 12 + padded value.size) e
  Spells (Body.child name inner rest) o e =
      (token_at o ≡ 1)
      × IsText m fuel (structures + (o + 4)) name
      × ((mid : ℕ) × Spells inner (o + 4 + padded (name.size + 1)) mid × Spells rest mid e)

-- The tokens of a body, the nodes and the properties in it.
abbrev pub tokens : Body → ℕ
tokens Body.close = 1
tokens (Body.nop b) = suc (tokens b)
tokens (Body.prop name value b) = suc (tokens b)
tokens (Body.child name inner rest) = suc (tokens inner + tokens rest)

abbrev pub count_nodes : Body → ℕ
count_nodes Body.close = 0
count_nodes (Body.nop b) = count_nodes b
count_nodes (Body.prop name value b) = count_nodes b
count_nodes (Body.child name inner rest) = suc (count_nodes inner + count_nodes rest)

abbrev pub count_properties : Body → ℕ
count_properties Body.close = 0
count_properties (Body.nop b) = count_properties b
count_properties (Body.prop name value b) = suc (count_properties b)
count_properties (Body.child name inner rest) = count_properties inner + count_properties rest

-- The elements that a body adds to the stacks.
abbrev pub pushes : Body → ℕ
pushes Body.close = 0
pushes (Body.nop b) = pushes b
pushes (Body.prop name value b) = suc (pushes b)
pushes (Body.child name inner rest) = suc (pushes inner + pushes rest)

-- The node's properties and children, the later in front of the earlier, on those it has already.
abbrev pub properties_onto : Body → List (View × Data) → List (View × Data)
properties_onto Body.close ps = ps
properties_onto (Body.nop b) ps = properties_onto b ps
properties_onto (Body.prop name value b) ps = properties_onto b ((name, Data.raw value) ∷ ps)
properties_onto (Body.child name inner rest) ps = properties_onto rest ps

abbrev pub children_onto : Body → Forest → Forest
children_onto Body.close ts = ts
children_onto (Body.nop b) ts = children_onto b ts
children_onto (Body.prop name value b) ts = children_onto b ts
children_onto (Body.child name inner rest) ts =
    children_onto rest
      (Forest.tree name 0 0 (properties_onto inner []) (children_onto inner Forest.nil) ts)

-- The list of properties from a pointer on, in buffers below `low`.
abbrev pub ArePropertiesOf : DeviceTree → (low : ℕ) → Option Ref → List (View × Data) → Type 0
ArePropertiesOf d low p [] = p ≡ none
ArePropertiesOf d low p ((name, value) ∷ ps) =
    (r : Ref) × (p ≡ some r)
    × (r.buffer < low)
    × (r.index < d.property_stack.size)
    × ((d.properties r).name ≡ name)
    × ((d.properties r).value ≡ value)
    × ArePropertiesOf d low (d.properties r).next_property ps

-- The list of siblings from a pointer on, whose nodes have places from `lo` on in buffers below `low`:
-- each with its name, its parent, its cells, its properties and its children.
abbrev pub AreTreesOf :
    DeviceTree → (low lo : ℕ) → (parent : Option Ref) → Option Ref → Forest → Type 0
AreTreesOf d low lo parent p Forest.nil = p ≡ none
AreTreesOf d low lo parent p (Forest.tree name address_cells size_cells ps ts rest) =
    (r : Ref) × (p ≡ some r)
    × (r.buffer < low)
    × (lo ≤ r.index)
    × (r.index < d.node_stack.size)
    × ((d.nodes r).name ≡ name)
    × ((d.nodes r).parent ≡ parent)
    × ((d.nodes r).address_cells ≡ address_cells)
    × ((d.nodes r).size_cells ≡ size_cells)
    × ArePropertiesOf d low (d.nodes r).properties ps
    × AreTreesOf d low lo (some r) (d.nodes r).children ts
    × AreTreesOf d low lo parent (d.nodes r).next_sibling rest
