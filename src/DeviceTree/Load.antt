-- ===== src/DeviceTree/Load.antt =====
-- `parse_from_blob` from beginning to end.
use octiron.Base.{ℕ, suc, ◌+◌, [], length}
use octiron.View.{View}
use octiron.Stack.{Stack}
use octiron.DeviceTree.{DeviceTree}
use octiron.DeviceTree.Layout.{Body, Forest, properties_onto, children_onto}
use octiron.Pmm.Spec.{view as frames_view}
use octiron.DeviceTree.Grants.{Grants}
use octiron.DeviceTree.Places.{Places}
use octiron.DeviceTree.Built.{Built}

-- The rounds that a list of trees needs.
abbrev pub rounds_of : Forest → ℕ
rounds_of Forest.nil = 1
rounds_of (Forest.tree name a z ps ts rest) =
    suc (suc (length ps + (rounds_of ts + rounds_of rest)))

-- The tree of a blob, with the root's cells as they are for the rewriting pass.
abbrev pub tree_of : (name : View) → Body → Forest
tree_of name b = Forest.tree name 2 1 (properties_onto b []) (children_onto b Forest.nil) Forest.nil
