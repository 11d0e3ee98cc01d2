-- ===== src/DeviceTree/Whole.antt =====
-- The end of `parse_from_blob`, from the tree that the loop over the tokens has built.
use octiron.Base.{ℕ, ◌≡◌, none, some, List, true, done}
use octiron.Number.{Bytes}
use octiron.Number.Endian.{IsBytes}
use octiron.View.{View}
use octiron.Errors.{ErrorCode, of_code}
use octiron.Stack.{Ref}
use octiron.DeviceTree.{DeviceTree, Data}
use octiron.DeviceTree.Layout.{Forest}
use octiron.DeviceTree.Rewrite.{rewrite_pass}
use octiron.DeviceTree.Grants.{Grants}
use octiron.DeviceTree.Places.{Places, TreesAt}

module _ (hhdm_base text_fuel most : ℕ) (m : Bytes) (bytes : IsBytes m) where
  -- The stores behind the rewriting pass.
  pub record Loaded (fuel : ℕ) (root_name : View) (root : Ref) (rs : List Ref) (inner : Places)
      (a z : ℕ) (ps : List (View × Data)) (ts : Forest) (d : DeviceTree) : Type 0 where
    pub after : DeviceTree
    pub runs :
        rewrite_pass hhdm_base text_fuel m fuel root_name d
        ≡ done (of_code ErrorCode.success, after)
    pub root_pointer : after.root ≡ some root
    pub initialized : after.initialized ≡ true
    pub is_tree :
        TreesAt after none
          (some root)
          (Places.at root rs inner Places.nil)
          (Forest.tree root_name a z ps ts Forest.nil)
