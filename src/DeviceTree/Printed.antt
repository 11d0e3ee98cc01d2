-- ===== src/DeviceTree/Printed.antt =====
-- What is printed of a tree that stands in the stores.
use octiron.Base.{
  ℕ, zero, suc, ◌+◌, ◌≤◌, ◌<◌, ◌≡◌, refl, true, Option, some, Run, done, ◌>>=◌, List, [], ◌∷◌, ◌++◌,
  length, arith,
}
use octiron.Number.{Bytes}
use octiron.View.{View}
use octiron.Stack.{Ref}
use octiron.DeviceTree.{Data, DeviceTree}
use octiron.DeviceTree.Layout.{Forest, nil, tree, ArePropertiesOf, AreTreesOf}
use octiron.DeviceTree.Print.{
  line, print_data, property_line, node_line, print_properties, print_children, print_device_tree,
}

-- The lines of a list of properties, and of trees: a node's own, its properties', its children's two
-- spaces further in, and then its siblings'.
module _ (m : Bytes) where
  unfoldable pub render_properties : (depth : ℕ) → List (View × Data) → Run (List ℕ)
  render_properties depth [] = done []
  render_properties depth ((name, value) ∷ ps) = do
    value_line ← print_data m value
    rest ← render_properties depth ps
    done (property_line m depth name value_line ++ rest)

  abbrev pub render_node :
      (depth : ℕ) → View → List (View × Data) → (children : Run (List ℕ)) → Run (List ℕ)
  render_node depth name ps children = do
    properties ← render_properties depth ps
    inner ← children
    done (node_line m depth name ++ properties ++ inner)

  unfoldable pub render : (depth : ℕ) → Forest → Run (List ℕ)
  render depth nil = done []
  render depth (tree name a s ps ts rest) = do
    node ← render_node depth name ps (render (suc depth) ts)
    siblings ← render depth rest
    done (node ++ siblings)

-- More rounds than any path from pointer to pointer takes.
abbrev pub rounds : Forest → ℕ
rounds nil = 1
rounds (tree name a s ps ts rest) = 3 + length ps + rounds ts + rounds rest

module _ (m : Bytes) (d : DeviceTree) (low : ℕ) where
  print_properties-render :
      (fuel depth : ℕ) (p : Option Ref) (ps : List (View × Data))
      → length ps < fuel
      → ArePropertiesOf d low p ps
      → print_properties m d fuel depth p ≡ render_properties m depth ps
  unfolding print_properties render_properties
  print_properties-render zero depth p ps enough h = absurd (omega arith)
  print_properties-render (suc fuel) depth p [] enough h = rw h refl
  print_properties-render (suc fuel) depth p ((name, value) ∷ ps) enough (r, e, b, i, n, v, rest) =
      rw
        (
          e,
          n,
          v,
          print_properties-render fuel depth (d.properties r).next_property ps (omega arith) rest,
        )
        refl

  print_children-render :
      (fuel depth lo : ℕ) (parent p : Option Ref) (ts : Forest)
      → rounds ts ≤ fuel
      → AreTreesOf d low lo parent p ts
      → print_children m d fuel depth p ≡ render m depth ts
  unfolding print_children render
  print_children-render zero depth lo parent p nil enough h = absurd (omega arith)
  print_children-render zero depth lo parent p (tree name a s ps ts rest) enough h =
      absurd (omega arith)
  print_children-render (suc fuel) depth lo parent p nil enough h = rw h refl
  print_children-render (suc zero) depth lo parent p (tree name a s ps ts rest) enough h =
      absurd (omega arith)
  print_children-render (suc (suc fuel)) depth lo parent p (tree name a s ps ts rest) enough
        (r, e, b, above, below, n, up, ac, sc, props, inner, next) =
      rw
        (
          e,
          n,
          print_properties-render fuel depth (d.nodes r).properties ps (omega arith) props,
          print_children-render fuel (suc depth) lo (some r) (d.nodes r).children ts (omega arith)
              inner,
          print_children-render (suc fuel) depth lo parent (d.nodes r).next_sibling rest
              (omega arith) next,
        )
        refl

  -- The lines that are printed of a tree in the stores.
  pub print_device_tree-render :
      (fuel lo : ℕ) (parent : Option Ref) (name : View) (a s : ℕ) (ps : List (View × Data))
      (ts rest : Forest)
      → d.initialized ≡ true
      → rounds (tree name a s ps ts rest) ≤ fuel
      → AreTreesOf d low lo parent d.root (tree name a s ps ts rest)
      → print_device_tree m d fuel ≡ (
          render_node m 0 name ps (render m 1 ts) >>= λ body.
          done (line "Printing the device tree:" ++ body))
  unfolding print_device_tree print_children print_properties render_properties
  print_device_tree-render zero lo parent name a s ps ts rest ready enough h = absurd (omega arith)
  print_device_tree-render (suc fuel) lo parent name a s ps ts rest ready enough
        (r, e, b, above, below, n, up, ac, sc, props, inner, next) =
      rw
        (
          ready,
          e,
          n,
          print_properties-render fuel 0 (d.nodes r).properties ps (omega arith) props,
          print_children-render fuel 1 lo (some r) (d.nodes r).children ts (omega arith) inner,
        )
        refl
