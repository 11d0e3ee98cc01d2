-- ===== src/DeviceTree/WholeTests.antt =====
-- A root with its own number of address cells, and a child with a `reg`, a `ranges` and a list of
-- compatible texts, of which the array holds the first.
use octiron.Base.{
  done, ℕ, zero, suc, ◌≡◌, none, some, List, [], ◌∷◌, ◌++◌, false, arith, ◌==◌, if◌then◌else◌,
}
use octiron.Number.{Bytes, load}
use octiron.View.{view}
use octiron.Pmm.{start}
use octiron.Bump.{load as bump_load}
use octiron.Stack.{Ref, empty}
use octiron.DeviceTree.{Node, Property, Data, DeviceTree}
use octiron.DeviceTree.Names.{codes}
use octiron.DeviceTree.Layout.{Forest}
use octiron.DeviceTree.Grants.{Grants}
use octiron.DeviceTree.Pairs.{numbers}
use octiron.DeviceTree.Trips.{trips_of}
use octiron.DeviceTree.Places.{Places}
use octiron.DeviceTree.Parse.{enter_node}
use octiron.DeviceTree.Stale.{enter_node_stale}

abbrev nth : List ℕ → ℕ → ℕ
nth [] i = 0
nth (x ∷ xs) zero = x
nth (x ∷ xs) (suc i) = nth xs i

abbrev content : List ℕ
content =
    codes "compatible"
    ++ (codes "#address-cells"
        ++ (codes "reg"
            ++ (97
                ∷ 0
                ∷ 0
                ∷ 0
                ∷ 0
                ∷ 2
                ∷ 0
                ∷ 0
                ∷ 0
                ∷ 0
                ∷ 0
                ∷ 0
                ∷ 16
                ∷ 0
                ∷ 0
                ∷ 0
                ∷ 1
                ∷ 0
                ∷ codes "ranges")))

abbrev memory : Bytes
memory = nth content

abbrev place : ℕ → Ref
place i = record { buffer = 0x5000; index = i }

-- The stores: the bump allocator has a region at 0x2000, mapped from 0x1000.
abbrev words : ℕ → ℕ
words p = if p == 0x1000 then 0x8000 else if p == 0x1008 then 0x2018 else 0

abbrev root_node : Node
root_node = record {
  name = view 0 0;
  address_cells = 0;
  size_cells = 0;
  properties = some (place 0);
  parent = none;
  children = some (place 1);
  next_sibling = none;
}

abbrev child_node : Node
child_node = record {
  name = view 27 1;
  address_cells = 2;
  size_cells = 1;
  properties = some (place 2);
  parent = some (place 0);
  children = none;
  next_sibling = none;
}

abbrev address_cells_property : Property
address_cells_property = record {
  name = view 10 14;
  next_property = none;
  value = Data.raw (view 29 4);
}

abbrev compatible_property : Property
compatible_property = record {
  name = view 0 10;
  next_property = none;
  value = Data.raw (view 27 3);
}

abbrev reg_property : Property
reg_property = record {
  name = view 24 3;
  next_property = some (place 3);
  value = Data.raw (view 33 12);
}

abbrev ranges_property : Property
ranges_property = record {
  name = view 45 6;
  next_property = some (place 1);
  value = Data.raw (view 25 20);
}

abbrev tree : DeviceTree
tree = record {
  pmm = start words;
  reserved_stack = empty;
  reserved_regions = λ r. record { address = 0; size = 0 };
  node_stack = record { size = 2; capacity = 73; buffer = 0x5000 };
  nodes = λ r. if r.index == 0 then root_node else child_node;
  property_stack = record { size = 4; capacity = 51; buffer = 0x5000 };
  properties = λ r.
      if r.index == 0
      then address_cells_property
      else if r.index == 1
      then compatible_property
      else if r.index == 2
      then reg_property
      else ranges_property;
  bump = record { region_list = 0x2000; current_region = 0x2000 };
  root = none;
  initialized = false;
}

abbrev child_places : Places
child_places = Places.at (place 1) (place 2 ∷ place 3 ∷ place 1 ∷ []) Places.nil Places.nil

abbrev child_before : Forest
child_before =
    Forest.tree (view 27 1) 2 1
      ((view 24 3, Data.raw (view 33 12))
        ∷ (view 45 6, Data.raw (view 25 20))
        ∷ (view 0 10, Data.raw (view 27 3))
        ∷ [])
      Forest.nil Forest.nil

abbrev child_after : Forest
child_after =
    Forest.tree (view 27 1) 2 1
      ((view 24 3, Data.reg 1 (numbers 1 2 12 33 memory) (numbers 1 1 12 41 memory))
        ∷ (view 45 6, trips_of memory 2 2 1 (view 25 20) 1)
        ∷ (view 0 10, Data.compatible (view 27 1 ∷ []))
        ∷ [])
      Forest.nil Forest.nil

-- The node stack has moved from 0x5000 to 0x7000, and the root is the open node yet.
abbrev moved_tree : DeviceTree
moved_tree = record tree { node_stack = record { size = 2; capacity = 73; buffer = 0x7000 } }

enter_node_stale_example :
    (new : Ref) × (after : DeviceTree) × (enter_node 0x1000 9 memory
        (view 45 1)
        (some (place 0))
        moved_tree
      ≡ done (new, after))
    × (after.node_stack.buffer ≡ 0x7000)
    × ((after.nodes (place 0)).children ≡ some new)
    × ((after.nodes new).parent ≡ some (place 0))
    × (after.nodes (record { buffer = 0x7000; index = 0 })
        ≡ moved_tree.nodes (record { buffer = 0x7000; index = 0 }))
enter_node_stale_example =
    enter_node_stale 0x1000 9 memory (view 45 1) (place 0) moved_tree (omega arith) (omega arith)
      (omega arith)
