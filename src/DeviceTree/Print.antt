-- ===== src/DeviceTree/Print.antt =====
-- `print_device_tree` and `print_node_recursive`: the characters that they print, as codes. A literal
-- is listed, since the linker chooses where it stands; what is printed before a fault is left out.
use Prim.Native.String.{String}
use octiron.Base.{
  ℕ, zero, suc, ◌%◌, ◌^◌, true, false, ◌==◌, if◌then◌else◌, Option, none, some, Run, done, fault,
  halt, ◌>>=◌, List, [], ◌∷◌, ◌++◌, map,
}
use octiron.Number.{Bytes}
use octiron.View.{View}
use octiron.Printer.{Sent, by_fn, by_global, print_unsigned, print_hex, print_str_view}
use octiron.Stack.{Ref}
use octiron.DeviceTree.{Data, DeviceStatus, DeviceTree}
use octiron.DeviceTree.Names.{codes}

-- `fmt::print` hands the global function to every printer.
abbrev pub char_of : Sent → ℕ
char_of (by_fn c) = c
char_of (by_global c) = c

-- `println` of one text.
abbrev pub line : String → List ℕ
line s = codes s ++ 10 ∷ []

-- `depth` times two spaces.
abbrev pub indent : ℕ → List ℕ
indent zero = []
indent (suc depth) = 32 ∷ 32 ∷ indent depth

module _ (m : Bytes) where
  abbrev pub text_of : View → List ℕ
  text_of v = map char_of (print_str_view v m)

  -- Numbers on a line, with what stands around them.
  abbrev pub number_line : String → ℕ → String → Run (List ℕ)
  number_line before n behind = do
    sent ← print_unsigned n
    done (codes before ++ map char_of sent ++ line behind)

  abbrev pub hex_line : ℕ → Run (List ℕ)
  hex_line n = do sent ← print_hex n; done (map char_of sent ++ 10 ∷ [])

  -- The loop over the compatible texts behind the first, up to the first empty one. A read behind the
  -- texts that the array holds is a fault.
  unfoldable pub print_more_texts : List View → Run (List ℕ)
  print_more_texts [] = fault
  print_more_texts (v ∷ vs) =
      let rest = print_more_texts vs in
      if v.size == 0 then done [] else (do r ← rest; done (codes ", " ++ text_of v ++ r))

  unfoldable pub print_texts : List View → Run (List ℕ)
  unfolding print_more_texts
  print_texts [] = fault
  print_texts (v ∷ vs) =
      let rest = print_more_texts vs in
      if v.size == 0 then done [] else (do r ← rest; done (text_of v ++ r))

  abbrev pub print_status : DeviceStatus → View → List ℕ
  print_status DeviceStatus.okay reason = line "OKAY"
  print_status DeviceStatus.disabled reason = line "DISABLED"
  print_status DeviceStatus.reserved reason = line "RESERVED"
  print_status DeviceStatus.fail reason = line "FAIL"
  print_status DeviceStatus.fail_with_reason reason = codes "FAIL: " ++ text_of reason ++ 10 ∷ []

  -- The `switch` on the type. A status with an unknown text still has its raw view in the union, so
  -- that the low half of the view's pointer is taken for the status; the reason is not set then.
  unfoldable pub print_data : Data → Run (List ℕ)
  unfolding print_texts
  print_data (Data.raw v) = number_line "RAW (length: " v.size ")"
  print_data (Data.compatible vs) = do texts ← print_texts vs; done (codes "[" ++ texts ++ line "]")
  print_data (Data.model v) = done (text_of v ++ 10 ∷ [])
  print_data (Data.phandle n) = hex_line n
  print_data (Data.status value reason) = done (print_status value reason)
  print_data (Data.status_unset v) =
      let value = v.ptr % 2 ^ 32 in
      if value == 0
      then done (print_status DeviceStatus.okay v)
      else if value == 1
      then done (print_status DeviceStatus.disabled v)
      else if value == 2
      then done (print_status DeviceStatus.reserved v)
      else if value == 3
      then done (print_status DeviceStatus.fail v)
      else if value == 4
      then fault
      else done []
  print_data (Data.address_cells n) = number_line "" n ""
  print_data (Data.size_cells n) = number_line "" n ""
  print_data (Data.dma_coherence b) = done (if b then line "true" else line "false")
  print_data (Data.device_type v) = done (text_of v ++ 10 ∷ [])
  print_data (Data.reg n addresses sizes) = number_line "REG (" n " pairs)"
  print_data (Data.ranges n cbus pbus sizes) = number_line "RANGES (" n " trips)"
  print_data (Data.virtual_reg n) = hex_line n
  print_data (Data.interrupt_parent n) = hex_line n
  print_data (Data.interrupt_controller v) = done (line "true")
  print_data (Data.interrupt_cells n) = number_line "" n ""

  -- A property's line.
  abbrev pub property_line : (depth : ℕ) → (name : View) → (value : List ℕ) → List ℕ
  property_line depth name value =
      indent (suc depth) ++ codes "Property: " ++ text_of name ++ codes " = " ++ value

  -- A node's first line.
  abbrev pub node_line : (depth : ℕ) → (name : View) → List ℕ
  node_line depth name = indent depth ++ codes "Node: " ++ text_of name ++ line " {"

  module _ (d : DeviceTree) where
    -- The loop over a node's properties.
    unfoldable pub print_properties : (fuel depth : ℕ) → Option Ref → Run (List ℕ)
    print_properties zero depth p = halt
    print_properties (suc fuel) depth none = done []
    print_properties (suc fuel) depth (some r) = do
      value ← print_data (d.properties r).value
      rest ← print_properties fuel depth (d.properties r).next_property
      done (property_line depth (d.properties r).name value ++ rest)

    unfoldable mutual
      pub print_node_recursive : (fuel depth : ℕ) → Option Ref → Run (List ℕ)
      print_node_recursive zero depth p = halt
      print_node_recursive (suc fuel) depth none = done []
      print_node_recursive (suc fuel) depth (some r) = do
        properties ← print_properties fuel depth (d.nodes r).properties
        children ← print_children fuel (suc depth) (d.nodes r).children
        done (node_line depth (d.nodes r).name ++ properties ++ children)

      -- The loop over a node's children.
      pub print_children : (fuel depth : ℕ) → Option Ref → Run (List ℕ)
      print_children zero depth p = halt
      print_children (suc fuel) depth none = done []
      print_children (suc fuel) depth (some r) = do
        child ← print_node_recursive fuel depth (some r)
        rest ← print_children fuel depth (d.nodes r).next_sibling
        done (child ++ rest)

    unfoldable pub print_device_tree : (fuel : ℕ) → Run (List ℕ)
    print_device_tree fuel = elim d.initialized [
      | false ↦ done (line "Device tree not initialized.")
      | true ↦ (do
        body ← print_node_recursive fuel 0 d.root
        done (line "Printing the device tree:" ++ body))
    ]
