-- ===== src/DeviceTree.antt =====
-- kernel/src/devices/device_tree.cpp: the tree's nodes and properties, and the stacks they stand in.
-- A pointer to a node or a property is a buffer and an index; a pointer into a buffer that a stack has
-- outgrown still reads and writes the old buffer.
mod Tests
mod Sample
mod SampleTests
mod WholeTests
pub mod Parse
pub mod Names
pub mod Cells
pub mod Rewrite
pub mod Layout
pub mod Grown
pub mod Build
pub mod Enter
pub mod Inside
pub mod Rounds
pub mod Trees
pub mod Built
pub mod Blobs
pub mod Blob
pub mod Aligned
pub mod Status
pub mod Pairs
pub mod Keeps
pub mod Small
pub mod Print
pub mod Printed
pub mod Says
pub mod Values
pub mod Shown
pub mod Entered
pub mod Bounds
pub mod Success
pub mod Grants
pub mod Regs
pub mod Trips
pub mod Texts
pub mod Places
pub mod Owned
pub mod Own
pub mod Rewritten
pub mod Steps
pub mod Firsts
pub mod Seconds
pub mod Passes
pub mod Parts
pub mod Finished
pub mod Whole
pub mod Load
pub mod Stale
use octiron.Base.{ℕ, Bool, true, false, Option, none, some, Run, done, ◌>>=◌, List}
use octiron.View.{View}
use octiron.Pmm.{Pmm}
use octiron.Bump.{BumpAlloc}
use octiron.Stack.{Stack, Stacked, Ref, put, push_back}

pub data DeviceStatus : Type 0 where
  okay disabled reserved fail fail_with_reason : DeviceStatus

-- `type` and `data` of a property: the union's member that is in use. `INTERRUPT_CONTROLLER` and a
-- status with an unknown text leave the union as it was.
pub data Data : Type 0 where
  raw model device_type interrupt_controller status_unset : View → Data
  compatible : List View → Data
  phandle address_cells size_cells virtual_reg interrupt_parent interrupt_cells : ℕ → Data
  status : DeviceStatus → (reason : View) → Data
  dma_coherence : Bool → Data
  reg : (n_pairs : ℕ) → (address_array size_array : List ℕ) → Data
  ranges : (n_trips : ℕ) → (cbus_address_array pbus_address_array size_array : List ℕ) → Data

pub record Property : Type 0 where
  pub name : View
  pub next_property : Option Ref
  pub value : Data

pub record Node : Type 0 where
  pub name : View
  pub address_cells : ℕ
  pub size_cells : ℕ
  pub properties : Option Ref
  pub parent : Option Ref
  pub children : Option Ref
  pub next_sibling : Option Ref

pub record ReservedRegion : Type 0 where
  pub address : ℕ
  pub size : ℕ

-- The file's variables, with the manager that the stacks and the bump allocator share.
pub record DeviceTree : Type 0 where
  pub pmm : Pmm
  pub reserved_stack : Stack
  pub reserved_regions : Ref → ReservedRegion
  pub node_stack : Stack
  pub nodes : Ref → Node
  pub property_stack : Stack
  pub properties : Ref → Property
  pub bump : BumpAlloc
  pub root : Option Ref
  pub initialized : Bool

-- `sizeof` of the three.
abbrev pub size_of_node : ℕ
size_of_node = 56

abbrev pub size_of_property : ℕ
size_of_property = 80

abbrev pub size_of_region : ℕ
size_of_region = 16

abbrev pub set_node : Ref → Node → DeviceTree → DeviceTree
set_node r n d = record d { nodes = put d.nodes r n }

abbrev pub set_property : Ref → Property → DeviceTree → DeviceTree
set_property r p d = record d { properties = put d.properties r p }

-- `emplace_back` on each stack.
module _ (hhdm_base : ℕ) where
  unfoldable pub emplace_region : ReservedRegion → DeviceTree → Run DeviceTree
  unfolding push_back
  emplace_region x d = do
    (r, t) ←
        push_back hhdm_base size_of_region x
          (record { pmm = d.pmm; stack = d.reserved_stack; items = d.reserved_regions })
    done (record d { pmm = t.pmm; reserved_stack = t.stack; reserved_regions = t.items })

  unfoldable pub emplace_node : Node → DeviceTree → Run (Ref × DeviceTree)
  emplace_node x d = do
    (r, t) ←
        push_back hhdm_base size_of_node x
          (record { pmm = d.pmm; stack = d.node_stack; items = d.nodes })
    done (r, record d { pmm = t.pmm; node_stack = t.stack; nodes = t.items })

  unfoldable pub emplace_property : Property → DeviceTree → Run (Ref × DeviceTree)
  emplace_property x d = do
    (r, t) ←
        push_back hhdm_base size_of_property x
          (record { pmm = d.pmm; stack = d.property_stack; items = d.properties })
    done (r, record d { pmm = t.pmm; property_stack = t.stack; properties = t.items })
