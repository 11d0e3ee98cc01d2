-- ===== src/DeviceTree/Shown.antt =====
-- The lines of a printed tree say what `Says` spells out.
use mathlib.Core.List.{append-nil}
use octiron.Base.{
  ℕ, suc, ◌*◌, ◌≤◌, ◌≡◌, ◌∙◌, refl, ap, sym, true, Option, done, List, [], ◌∷◌, ◌++◌,
}
use octiron.Number.{Bytes}
use octiron.View.{View}
use octiron.DeviceTree.{Data, DeviceTree}
use octiron.Stack.{Ref}
use octiron.DeviceTree.Names.{codes}
use octiron.DeviceTree.Layout.{Forest, nil, tree, AreTreesOf}
use octiron.DeviceTree.Print.{text_of, property_line, node_line, print_device_tree}
use octiron.DeviceTree.Printed.{render_properties, render, rounds, print_device_tree-render}
use octiron.DeviceTree.Says.{
  spaces, ended, ArePrintable, IsPrintableForest, bytes_of, SayProperties, SayForest,
}
use octiron.DeviceTree.Values.{indent-spaces, text_bytes, data_says}

module _ (m : Bytes) where
  properties_say :
      (depth : ℕ) (ps : List (View × Data))
      → ArePrintable ps
      → (t : List ℕ) × (render_properties m depth ps ≡ done t) × SayProperties m depth ps t
  unfolding render_properties
  properties_say depth [] h = ([], refl, refl)
  properties_say depth ((name, x) ∷ ps) (here, more) =
      let (value, runs, says) = data_says m x here in
      let (rest, runs', say) = properties_say depth ps more in
      (
        property_line m depth name value ++ rest,
        rw (runs, runs') refl,
        (
          value,
          rest,
          says,
          say,
          ap (λ i. (i ++ codes "Property: " ++ text_of m name ++ codes " = " ++ value) ++ rest)
                (indent-spaces (suc depth))
              ∙ ap
                  (λ t.
                    (spaces (2 * suc depth) ++ codes "Property: " ++ t ++ codes " = " ++ value)
                    ++ rest)
                  (text_bytes m name),
        ),
      )

  forest_says :
      (depth : ℕ) (ts : Forest)
      → IsPrintableForest ts
      → (t : List ℕ) × (render m depth ts ≡ done t) × SayForest m depth ts t
  unfolding render
  forest_says depth nil h = ([], refl, refl)
  forest_says depth (tree name a s ps ts rest) (own, inner, others) =
      let (properties, runs, say) = properties_say depth ps own in
      let (children, runs', say') = forest_says (suc depth) ts inner in
      let (siblings, runs'', say'') = forest_says depth rest others in
      (
        (node_line m depth name ++ properties ++ children) ++ siblings,
        rw (runs, runs', runs'') refl,
        (
          properties,
          children,
          siblings,
          say,
          say',
          say'',
          rw (indent-spaces depth, text_bytes m name) refl,
        ),
      )

  -- An initialized device tree whose root pointer leads to a tree in the stores, with values that can
  -- be printed, and with more rounds than a path has pointers, is printed completely, without a fault:
  -- the headline, and then text that says the tree. A node's line is indented by two spaces for each
  -- level and shows its name; those of its properties follow, two spaces further in, each with its name
  -- and its value, and then its children's. Numbers are digits that spell them, and names are their
  -- bytes. A value can be printed if its numbers are below 2 ^ 64, an array of compatible texts holds an
  -- empty one, and the number taken for an unrecognized status is not 4.
  pub print_device_tree_shown :
      (d : DeviceTree) (low fuel lo : ℕ) (parent : Option Ref) (name : View) (a s : ℕ)
      (ps : List (View × Data)) (ts : Forest)
      → d.initialized ≡ true
      → rounds (tree name a s ps ts nil) ≤ fuel
      → AreTreesOf d low lo parent d.root (tree name a s ps ts nil)
      → IsPrintableForest (tree name a s ps ts nil)
      → (text : List ℕ) × (print_device_tree m d fuel
          ≡ done (ended "Printing the device tree:" ++ text))
        × SayForest m 0 (tree name a s ps ts nil) text
  unfolding render
  print_device_tree_shown d low fuel lo parent name a s ps ts ready enough h (own, inner, others) =
      let (properties, runs, say) = properties_say 0 ps own in
      let (children, runs', say') = forest_says 1 ts inner in
      let text = node_line m 0 name ++ properties ++ children in
      let shown = (codes "Node: " ++ bytes_of m name ++ ended " {") ++ properties ++ children in
      (
        text,
        print_device_tree-render m d low fuel lo parent name a s ps ts nil ready enough h
            ∙ rw (runs, runs') refl,
        (
          properties,
          children,
          [],
          say,
          say',
          refl,
          rw (text_bytes m name) (sym (append-nil shown)),
        ),
      )
