-- ===== src/DeviceTree/Small.antt =====
-- The numbers of cells that the nodes have, through the whole of `parse_from_blob`.
use octiron.Base.{
  ℕ, zero, suc, ◌+◌, ◌*◌, ◌≤◌, refl, subst, sym, true, false, not, ltb, ◌==◌, if◌then◌else◌, Option,
  none, some, Run, done, ◌>>=◌, arith, Bool-cases, inl, inr, Ensures, Ensures-bind, Ensures-skip,
  Ensures-if, Ensures-Option, Ensures-Bool, returned, halted,
}
use octiron.Number.{Bytes, read_big_endian32}
use octiron.Errors.{Error, is_err}
use octiron.Slab.{assert}
use octiron.View.{View}
use octiron.Stack.{Ref}
use octiron.DeviceTree.{Node, Data, DeviceTree, set_node}
use octiron.DeviceTree.Names.{Kind, kind_of, is_text}
use octiron.DeviceTree.Cells.{raw_of, property_rewrite_reg, property_rewrite_ranges}
use octiron.DeviceTree.Keeps.{
  Keeps, take-Keeps, property_rewrite_reg-Keeps, property_rewrite_ranges-Keeps,
}
use octiron.DeviceTree.Rewrite.{
  rewrite_property, rewrite_compatible, rewrite_value, status_of, count_zeros, split_texts,
  first_pass, second_pass, rewrite_node, rewrite_children, rewrite_pass,
}

-- The bounds that `property_rewrite_reg` and `property_rewrite_ranges` assert.
abbrev pub IsSmall : Node → Type 0
IsSmall n = (n.address_cells ≤ 3) × (n.size_cells ≤ 2)

abbrev pub AreSmall : DeviceTree → Type 0
AreSmall d = (r : Ref) → IsSmall (d.nodes r)

pub set_node-AreSmall :
    (r : Ref) (n : Node) (d : DeviceTree) → IsSmall n → AreSmall d → AreSmall (set_node r n d)
set_node-AreSmall r n d small all q = ground (arith, all q)

pub Keeps-AreSmall : (d d' : DeviceTree) → Keeps d d' → AreSmall d → AreSmall d'
Keeps-AreSmall d d' e all r = subst (λ f. IsSmall (f r)) (sym e) (all r)

module _ (hhdm_base text_fuel : ℕ) (m : Bytes) where
  -- What a step of the first pass leaves.
  abbrev SmallStep : Option Error × DeviceTree → Type 0
  SmallStep out = AreSmall out.1

  rewrite_compatible-Keeps :
      (prop : Ref) (d : DeviceTree)
      → Ensures (Keeps d) (rewrite_compatible hhdm_base text_fuel m prop d)
  unfolding rewrite_compatible
  rewrite_compatible-Keeps prop d = Ensures-skip (raw_of (d.properties prop).value) λ v.
      let n = count_zeros hhdm_base text_fuel m v.size v.ptr in
      Ensures-bind (take-Keeps hhdm_base (8 * (n + 1)) 8 d) λ (x, d₁) k₁.
        Ensures-skip (assert (not (x == 0)))
          λ _. Ensures-skip (split_texts hhdm_base text_fuel m (suc v.size) 0 v) λ _. returned k₁

  rewrite_value-Keeps :
      (f : View → Data) (prop : Ref) (d : DeviceTree)
      → Ensures (Keeps d) (rewrite_value hhdm_base text_fuel m f prop d)
  rewrite_value-Keeps f prop d = Ensures-skip (raw_of (d.properties prop).value) λ v. returned refl

  -- A step that keeps the nodes.
  kept :
      (d : DeviceTree) (r : Run DeviceTree)
      → AreSmall d
      → Ensures (Keeps d) r
      → Ensures SmallStep (r >>= λ d'. done (none, d'))
  kept d r all k = Ensures-bind k λ d' e. returned (Keeps-AreSmall d d' e all)

  value_kept :
      (f : View → Data) (prop : Ref) (d : DeviceTree)
      → AreSmall d
      → Ensures SmallStep (rewrite_value hhdm_base text_fuel m f prop d >>= λ d'. done (none, d'))
  value_kept f prop d all =
      kept d (rewrite_value hhdm_base text_fuel m f prop d) all (rewrite_value-Keeps f prop d)

  rewrite_property-AreSmall :
      (kind : Kind) (node prop : Ref) (d : DeviceTree)
      → AreSmall d
      → Ensures SmallStep (rewrite_property hhdm_base text_fuel m kind node prop d)
  unfolding rewrite_property
  rewrite_property-AreSmall Kind.compatible node prop d all =
      kept d _ all (rewrite_compatible-Keeps prop d)
  rewrite_property-AreSmall Kind.address_cells node prop d all =
      Ensures-skip (raw_of (d.properties prop).value) λ v.
        let cells = read_big_endian32 m v.ptr in
        Ensures-bind (rewrite_value-Keeps (λ _. Data.address_cells cells) prop d) λ d' e.
          let all' = Keeps-AreSmall d d' e all in
          elim (Bool-cases (ltb 3 cells)) [
            | inl large ↦ rw large (returned all')
            | inr fits ↦ rw fits (
                returned (
                  set_node-AreSmall node (record (d'.nodes node) { address_cells = cells }) d'
                    (ground (arith, fits), (all' node).1) all'))
          ]
  rewrite_property-AreSmall Kind.size_cells node prop d all =
      Ensures-skip (raw_of (d.properties prop).value) λ v.
        let cells = read_big_endian32 m v.ptr in
        Ensures-bind (rewrite_value-Keeps (λ _. Data.size_cells cells) prop d) λ d' e.
          let all' = Keeps-AreSmall d d' e all in
          elim (Bool-cases (ltb 2 cells)) [
            | inl large ↦ rw large (returned all')
            | inr fits ↦ rw fits (
                returned (
                  set_node-AreSmall node (record (d'.nodes node) { size_cells = cells }) d'
                    ((all' node).0, ground (arith, fits)) all'))
          ]
  rewrite_property-AreSmall Kind.untouched node prop d all = returned all
  rewrite_property-AreSmall Kind.unhandled node prop d all = returned all
  rewrite_property-AreSmall Kind.model node prop d all = value_kept (λ v. Data.model v) prop d all
  rewrite_property-AreSmall Kind.phandle node prop d all =
      value_kept (λ v. Data.phandle (read_big_endian32 m v.ptr)) prop d all
  rewrite_property-AreSmall Kind.status node prop d all =
      value_kept (status_of hhdm_base text_fuel m) prop d all
  rewrite_property-AreSmall Kind.dma_coherent node prop d all =
      value_kept (λ _. Data.dma_coherence true) prop d all
  rewrite_property-AreSmall Kind.dma_noncoherent node prop d all =
      value_kept (λ _. Data.dma_coherence false) prop d all
  rewrite_property-AreSmall Kind.device_type node prop d all =
      value_kept (λ v. Data.device_type v) prop d all
  rewrite_property-AreSmall Kind.virtual_reg node prop d all =
      value_kept (λ v. Data.virtual_reg (read_big_endian32 m v.ptr)) prop d all
  rewrite_property-AreSmall Kind.interrupt_parent node prop d all =
      value_kept (λ v. Data.interrupt_parent (read_big_endian32 m v.ptr)) prop d all
  rewrite_property-AreSmall Kind.interrupt_cells node prop d all =
      value_kept (λ v. Data.interrupt_cells (read_big_endian32 m v.ptr)) prop d all
  rewrite_property-AreSmall Kind.interrupt_controller node prop d all =
      value_kept (λ v. Data.interrupt_controller v) prop d all

  first_pass-AreSmall :
      (fuel : ℕ) (node : Ref) (prop : Option Ref) (d : DeviceTree)
      → AreSmall d
      → Ensures SmallStep (first_pass hhdm_base text_fuel m fuel node prop d)
  unfolding first_pass
  first_pass-AreSmall zero node prop d all = halted
  first_pass-AreSmall (suc fuel) node none d all = returned all
  first_pass-AreSmall (suc fuel) node (some prop) d all =
      Ensures-bind (rewrite_property-AreSmall (kind_of (d.properties prop).name m) node prop d all)
        λ (failed, d') all'.
          Ensures-Option failed
            (first_pass-AreSmall fuel node (d'.properties prop).next_property d' all')
            λ err. returned all'

  second_step-Keeps :
      (node prop : Ref) (name : View) (d : DeviceTree)
      → Ensures (Keeps d) (
          if is_text "reg" name m
          then property_rewrite_reg m hhdm_base node prop d
          else if is_text "ranges" name m
          then property_rewrite_ranges m hhdm_base node prop d
          else if is_text "bus-ranges" name m
          then property_rewrite_ranges m hhdm_base node prop d
          else done d)
  second_step-Keeps node prop name d =
      Ensures-if (is_text "reg" name m) (property_rewrite_reg-Keeps m hhdm_base node prop d) (
        Ensures-if (is_text "ranges" name m) (property_rewrite_ranges-Keeps m hhdm_base node prop d)
          (Ensures-if (is_text "bus-ranges" name m)
            (property_rewrite_ranges-Keeps m hhdm_base node prop d) (returned refl)))

  second_pass-AreSmall :
      (fuel : ℕ) (node : Ref) (prop : Option Ref) (d : DeviceTree)
      → AreSmall d
      → Ensures AreSmall (second_pass hhdm_base text_fuel m fuel node prop d)
  unfolding second_pass
  second_pass-AreSmall zero node prop d all = halted
  second_pass-AreSmall (suc fuel) node none d all = returned all
  second_pass-AreSmall (suc fuel) node (some prop) d all =
      Ensures-bind (second_step-Keeps node prop (d.properties prop).name d) λ d' e.
        second_pass-AreSmall fuel node (d'.properties prop).next_property d'
          (Keeps-AreSmall d d' e all)

  abbrev pub SmallResult : Error × DeviceTree → Type 0
  SmallResult out = AreSmall out.1

  mutual
    unfolding rewrite_node

    rewrite_node-AreSmall :
        (fuel : ℕ) (node : Ref) (d : DeviceTree)
        → AreSmall d
        → Ensures SmallResult (rewrite_node hhdm_base text_fuel m fuel node d)
    rewrite_node-AreSmall zero node d all = halted
    rewrite_node-AreSmall (suc fuel) node d all =
        Ensures-bind (first_pass-AreSmall fuel node (d.nodes node).properties d all)
          λ (failed, d₁) all₁.
            Ensures-Option failed
              (Ensures-bind (second_pass-AreSmall fuel node (d₁.nodes node).properties d₁ all₁)
                λ d₂ all₂. rewrite_children-AreSmall fuel (d₂.nodes node).children d₂ all₂)
              λ err. returned all₁

    rewrite_children-AreSmall :
        (fuel : ℕ) (child : Option Ref) (d : DeviceTree)
        → AreSmall d
        → Ensures SmallResult (rewrite_children hhdm_base text_fuel m fuel child d)
    rewrite_children-AreSmall zero child d all = halted
    rewrite_children-AreSmall (suc fuel) none d all = returned all
    rewrite_children-AreSmall (suc fuel) (some child) d all =
        Ensures-bind (rewrite_node-AreSmall fuel child d all) λ (err, d') all'.
          Ensures-Bool (is_err err) (returned all')
            (rewrite_children-AreSmall fuel (d'.nodes child).next_sibling d' all')

  pub rewrite_pass-AreSmall :
      (fuel : ℕ) (root_name : View) (d : DeviceTree)
      → AreSmall d
      → Ensures SmallResult (rewrite_pass hhdm_base text_fuel m fuel root_name d)
  unfolding rewrite_pass
  rewrite_pass-AreSmall fuel root_name d all =
      let root : Ref = record { buffer = d.node_stack.buffer; index = 0 } in
      let node : Node = record (d.nodes root) { address_cells = 2; size_cells = 1 } in
      let start = set_node root node (record d { root = some root }) in
      Ensures-if (d.node_stack.size == 0) (returned all) (
        Ensures-bind
          (rewrite_node-AreSmall fuel root start
            (set_node-AreSmall root node (record d { root = some root }) (omega arith) all))
          λ (err, d') all'. Ensures-Bool (is_err err) (returned all') (
            returned (
              set_node-AreSmall root (record (d'.nodes root) { name = root_name })
                (record d' { initialized = true }) (all' root) all')))
