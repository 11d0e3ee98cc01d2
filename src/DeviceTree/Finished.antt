-- ===== src/DeviceTree/Finished.antt =====
-- The rewriting of a whole tree, and the end of `parse_from_blob`.
use octiron.Base.{
  ℕ, zero, suc, ◌≤◌, ◌<◌, ◌≡◌, ◌∙◌, refl, ap, sym, subst, Option, none, some, List, ◌∷◌, ◌++◌,
  arith, false, ◌>>=◌,
}
use octiron.Number.{Bytes}
use octiron.Number.Endian.{IsBytes}
use octiron.View.{View}
use octiron.Errors.{empty_error, is_err}
use octiron.Stack.{Ref}
use octiron.DeviceTree.{DeviceTree, Data, Node}
use octiron.DeviceTree.Layout.{Forest}
use octiron.DeviceTree.Rewrite.{rewrite_children}
use octiron.DeviceTree.Grants.{Grants}
use octiron.DeviceTree.Places.{
  Places, node_places, property_places, Apart, AreDistinct, NotIn-append, append-Apart, Apart-All,
  Apart-sym, PropertiesAt, TreesAt, same-PropertiesAt, same-TreesAt,
}
use octiron.DeviceTree.Rewritten.{requests_of, ParentCells, Rewrites}
use octiron.DeviceTree.Steps.{with_cells}
use octiron.DeviceTree.Parts.{AreParts, parts}
use octiron.DeviceTree.Passes.{
  weight, IsOutside, IsOutside-ParentHas, IsOutside-rest, NodeDone, TreesDone, node_done,
}

pub empty_error-is_err : is_err empty_error ≡ false
unfolding is_err
empty_error-is_err = refl

weight_pos : (places : Places) → 0 < weight places
weight_pos Places.nil = omega arith
weight_pos (Places.at r rs inner more) = omega arith

module _ (hhdm_base text_fuel most : ℕ) (m : Bytes) (bytes : IsBytes m) where
  abbrev N :
      (fuel k : ℕ)
      → Ref
      → List Ref
      → Places
      → ℕ
      → ℕ
      → List (View × Data)
      → Forest
      → DeviceTree
      → Type 0
  N = NodeDone hhdm_base text_fuel most m bytes

  abbrev T : (fuel k : ℕ) → Option Ref → Option Ref → Places → Forest → DeviceTree → Type 0
  T = TreesDone hhdm_base text_fuel most m bytes

  -- A tree that is done, and then its siblings.
  siblings :
      (k n fuel : ℕ) (r : Ref) (rs : List Ref) (inner more : Places) (parent p : Option Ref)
      (name : View) (a z : ℕ) (ps : List (View × Data)) (ts rest rest' : Forest) (d : DeviceTree)
      → AreParts r rs inner more
      → p ≡ some r
      → (d.nodes r).name ≡ name
      → (d.nodes r).parent ≡ parent
      → TreesAt d parent (d.nodes r).next_sibling more rest
      → (one : N fuel n r rs inner a z ps ts d)
      → (TreesAt one.after parent (d.nodes r).next_sibling more rest
          → T fuel k parent (d.nodes r).next_sibling more rest' one.after)
      → T (suc fuel) k parent p (Places.at r rs inner more) (Forest.tree name a z ps ts rest') d
  unfolding rewrite_children
  siblings k n fuel r rs inner more parent p name a z ps ts rest rest' d s q en up trees one
        continue =
      let nodes_before : Apart (node_places more) (r ∷ node_places inner) =
        Apart-sym (r ∷ node_places inner) (node_places more) (s.new_rest, s.nodes_apart) in
      let properties_before : Apart (property_places more) (rs ++ property_places inner) =
        Apart-sym (rs ++ property_places inner) (property_places more) (
          append-Apart rs (property_places inner) (property_places more) s.own_rest
            s.properties_apart) in
      let two : T fuel k parent (d.nodes r).next_sibling more rest' one.after = continue (
        same-TreesAt d one.after parent (d.nodes r).next_sibling more rest
          (Apart-All (node_places more) (r ∷ node_places inner) nodes_before
            λ o (ne, new). one.other_nodes o ne new)
          (Apart-All (property_places more) (rs ++ property_places inner) properties_before λ o new.
            let (x, y) = NotIn-append o rs (property_places inner) new in
            one.other_properties o x y)
          trees) in
      let same : two.after.nodes r ≡ with_cells a z (d.nodes r) =
        two.other_nodes r s.new_rest ∙ one.here in
      record {
        after = two.after;
        runs =
            rw (q, one.runs, ◌>>=◌, empty_error-is_err, ap (λ (x : Node). x.next_sibling) one.here)
              two.runs;
        trees = (
          q,
          ap (λ (x : Node). x.name) same ∙ en,
          ap (λ (x : Node). x.parent) same ∙ up,
          ap (λ (x : Node). x.address_cells) same,
          ap (λ (x : Node). x.size_cells) same,
          subst (λ (x : Node). PropertiesAt two.after x.properties rs ps) (sym same)
              (same-PropertiesAt one.after two.after (d.nodes r).properties rs ps
                (Apart-All rs (property_places more) s.own_rest two.other_properties)
                one.properties),
          subst (λ (x : Node). TreesAt two.after (some r) x.children inner ts) (sym same)
              (same-TreesAt one.after two.after (some r) (d.nodes r).children inner ts
                (Apart-All (node_places inner) (node_places more) s.nodes_apart two.other_nodes)
                (Apart-All (property_places inner) (property_places more) s.properties_apart
                  two.other_properties)
                one.children),
          subst (λ (x : Node). TreesAt two.after parent x.next_sibling more rest') (sym same)
              two.trees,
        );
        other_nodes = λ o (ne, new).
            let (x, y) = NotIn-append o (node_places inner) (node_places more) new in
            two.other_nodes o y ∙ one.other_nodes o ne x;
        other_properties = λ o new.
            let (x, rest) = NotIn-append o rs (property_places inner ++ property_places more) new in
            let (y, z) = NotIn-append o (property_places inner) (property_places more) rest in
            two.other_properties o z ∙ one.other_properties o x y;
        same_root = two.same_root ∙ one.same_root;
        grants = two.grants;
      }

  trees_done :
      (k fuel : ℕ) (parent p : Option Ref) (c : ParentCells) (places : Places) (ts ts' : Forest)
      (d : DeviceTree)
      → weight places ≤ fuel
      → AreDistinct (node_places places)
      → AreDistinct (property_places places)
      → IsOutside d (node_places places) parent c
      → TreesAt d parent p places ts
      → Rewrites hhdm_base text_fuel most m c ts ts'
      → Grants hhdm_base most (requests_of m ts k) d.pmm d.bump
      → T fuel k parent p places ts' d
  unfolding rewrite_children
  trees_done k zero parent p c places ts ts' d l nodes properties out h r g =
      absurd (omega (arith, l, weight_pos places))
  trees_done k (suc fuel) parent p c Places.nil Forest.nil Forest.nil d l nodes properties out h r
        g =
      record {
        after = d;
        runs = rw h refl;
        trees = h;
        other_nodes = λ q new. refl;
        other_properties = λ q new. refl;
        same_root = refl;
        grants = g;
      }
  trees_done k (suc fuel) parent p c Places.nil Forest.nil (Forest.tree name a z ps ts rest) d l
        nodes properties out h r g =
      absurd r
  trees_done k (suc fuel) parent p c Places.nil (Forest.tree name a z ps ts rest) ts' d l nodes
        properties out h r g =
      absurd h
  trees_done k (suc fuel) parent p c (Places.at r rs inner more) Forest.nil ts' d l nodes properties
        out h r' g =
      absurd h
  trees_done k (suc fuel) parent p c (Places.at r rs inner more) (Forest.tree name a z ps ts rest)
        Forest.nil d l nodes properties out h r' g =
      absurd r'
  trees_done k (suc zero) parent p c (Places.at r rs inner more) (Forest.tree name a z ps ts rest)
        (Forest.tree name' a' z' ps' ts' rest') d l nodes properties out h w g =
      absurd (omega (arith, l))
  trees_done k (suc (suc fuel)) parent p c (Places.at r rs inner more)
        (Forest.tree name a z ps ts rest) (Forest.tree name' a' z' ps' ts' rest') d l nodes
        properties out (q, en, up, ea, ez, own, children, others) (en', (mid, fs, ss), ws, w) g =
      let s = parts r rs inner more nodes properties in
      let n = requests_of m rest k in
      let one : N (suc fuel) n r rs inner a' z' ps' ts' d =
        node_done hhdm_base text_fuel most m bytes n (requests_of m ts n) fuel r rs inner parent c a
          z a' z' ps mid ps' ts ts' d (omega (arith, l, weight_pos inner)) s.own s.new s.own_inner
          (IsOutside-ParentHas d r (node_places inner ++ node_places more) parent c out) up ea ez
          own children fs ss g
          λ d₂ outside trees grants.
            trees_done n fuel (some r) (d.nodes r).children (some (a', z')) inner ts ts' d₂
              (omega (arith, l)) s.nodes_inner s.properties_inner outside trees ws grants in
      siblings k n (suc fuel) r rs inner more parent p name' a' z' ps' ts' rest rest' d s q
        (en ∙ sym en') up others one
        λ trees.
          trees_done k (suc fuel) parent (d.nodes r).next_sibling c more rest rest' one.after
            (omega (arith, l)) s.nodes_rest s.properties_rest
            (IsOutside-rest d one.after r (node_places inner) (node_places more) parent c
              one.other_nodes out)
            trees w one.grants

  -- A tree with no parent and no siblings.
  pub root_done :
      (fuel : ℕ) (r : Ref) (rs : List Ref) (inner : Places) (name : View) (a z a' z' : ℕ)
      (ps ps' : List (View × Data)) (ts ts' : Forest) (d : DeviceTree)
      → weight (Places.at r rs inner Places.nil) ≤ fuel
      → AreDistinct (node_places (Places.at r rs inner Places.nil))
      → AreDistinct (property_places (Places.at r rs inner Places.nil))
      → TreesAt d none
          (some r)
          (Places.at r rs inner Places.nil)
          (Forest.tree name a z ps ts Forest.nil)
      → Rewrites hhdm_base text_fuel most m none
          (Forest.tree name a z ps ts Forest.nil)
          (Forest.tree name a' z' ps' ts' Forest.nil)
      → Grants hhdm_base most (requests_of m (Forest.tree name a z ps ts Forest.nil) 0) d.pmm d.bump
      → N fuel 0 r rs inner a' z' ps' ts' d
  root_done zero r rs inner name a z a' z' ps ps' ts ts' d l nodes properties h w g =
      absurd (omega (arith, l))
  root_done (suc fuel) r rs inner name a z a' z' ps ps' ts ts' d l nodes properties
        (q, en, up, ea, ez, own, children, last) (en', (mid, fs, ss), ws, w) g =
      let s = parts r rs inner Places.nil nodes properties in
      node_done hhdm_base text_fuel most m bytes 0 (requests_of m ts 0) fuel r rs inner none none a
        z a' z' ps mid ps' ts ts' d (omega (arith, l, weight_pos inner)) s.own s.new s.own_inner tt
        up ea ez own children fs ss g
        λ d₂ outside trees grants.
          trees_done 0 fuel (some r) (d.nodes r).children (some (a', z')) inner ts ts' d₂
            (omega (arith, l)) s.nodes_inner s.properties_inner outside trees ws grants
