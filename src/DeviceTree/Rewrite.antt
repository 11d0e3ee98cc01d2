-- ===== src/DeviceTree/Rewrite.antt =====
-- `recursive_property_rewrite`, and `parse_from_blob` as a whole.
use octiron.Base.{
  ℕ, zero, suc, ◌+◌, ◌*◌, ◌/◌, true, false, not, ltb, ◌==◌, if◌then◌else◌, Option, none, some, Run,
  done, halt, ◌>>=◌, ◌>>◌, List, [], ◌∷◌,
}
use octiron.Number.{Bytes, load, read_big_endian32, flip_endianness32}
use octiron.Errors.{Error, ErrorCode, of_code, empty_error, is_err, push}
use octiron.Slab.{assert}
use octiron.View.{View, view, advance, from_null_term}
use octiron.Stack.{Ref}
use octiron.DeviceTree.{Data, DeviceStatus, DeviceTree, set_node, set_property}
use octiron.DeviceTree.Names.{Kind, kind_of, is_text}
use octiron.DeviceTree.Cells.{raw_of, take, held, property_rewrite_reg, property_rewrite_ranges}
use octiron.DeviceTree.Parse.{parse_structures, read_reserved}

-- `str_view()`.
abbrev pub no_text : View
no_text = view 0 0

module _ (hhdm_base text_fuel : ℕ) (m : Bytes) where
  -- The zero bytes of a value, with the bytes left and the place of the next one.
  unfoldable pub count_zeros : (left p : ℕ) → ℕ
  count_zeros zero p = 0
  count_zeros (suc left) p =
      let rest = count_zeros left (p + 1) in if m p == 0 then suc rest else rest

  -- The texts of a value from place `i` on. Each round goes on by a byte at least, so more rounds
  -- than bytes are enough.
  unfoldable pub split_texts : (fuel i : ℕ) → View → Run (List View)
  split_texts zero i v = halt
  split_texts (suc fuel) i v = elim (ltb i v.size) [
    | false ↦ done []
    | true ↦ (do
      text ← from_null_term text_fuel (v.ptr + i) m
      texts ← split_texts fuel (i + text.size + 1) v
      done (text ∷ texts))
  ]

  -- The array has 8 bytes for each view of 16: it holds the first half of the views, and the others and
  -- the empty one at the end lie behind it.
  unfoldable pub rewrite_compatible : Ref → DeviceTree → Run DeviceTree
  unfolding count_zeros split_texts
  rewrite_compatible prop d = do
    raw_view ← raw_of (d.properties prop).value
    let num_strings = count_zeros raw_view.size raw_view.ptr
    let room = 8 * (num_strings + 1)
    (array, d') ← take hhdm_base room 8 d
    assert (not (array == 0))
    texts ← split_texts (suc raw_view.size) 0 raw_view
    done (
        set_property prop
          (record (d'.properties prop) { value = Data.compatible (held (room / 16) texts) }) d')

  -- The text of a `status` property.
  unfoldable pub status_of : View → Data
  status_of s =
      if is_text "okay" s m
      then Data.status DeviceStatus.okay no_text
      else if is_text "disabled" s m
      then Data.status DeviceStatus.disabled no_text
      else if is_text "reserved" s m
      then Data.status DeviceStatus.reserved no_text
      else if is_text "fail" s m
      then Data.status DeviceStatus.fail no_text
      else if is_text "fail-" (advance s 5) m
      then Data.status DeviceStatus.fail_with_reason (advance s 5)
      else Data.status_unset s

  -- A property with the value that `f` makes of the raw one.
  abbrev pub rewrite_value : (View → Data) → Ref → DeviceTree → Run DeviceTree
  rewrite_value f prop d = do
    v ← raw_of (d.properties prop).value
    done (set_property prop (record (d.properties prop) { value = f v }) d)

  -- One round of the first pass: the error to return, if any, and the new state.
  unfoldable pub rewrite_property :
      Kind → (node prop : Ref) → DeviceTree → Run (Option Error × DeviceTree)
  rewrite_property Kind.compatible node prop d = do d' ← rewrite_compatible prop d; done (none, d')
  rewrite_property Kind.model node prop d = do
    d' ← rewrite_value (λ v. Data.model v) prop d
    done (none, d')
  rewrite_property Kind.phandle node prop d = do
    d' ← rewrite_value (λ v. Data.phandle (read_big_endian32 m v.ptr)) prop d
    done (none, d')
  rewrite_property Kind.status node prop d = do d' ← rewrite_value status_of prop d; done (none, d')
  rewrite_property Kind.address_cells node prop d = do
    v ← raw_of (d.properties prop).value
    let cells = read_big_endian32 m v.ptr
    d' ← rewrite_value (λ _. Data.address_cells cells) prop d
    if ltb 3 cells
        then done (some (of_code ErrorCode.dt_address_cells_too_large), d')
        else done (none, set_node node (record (d'.nodes node) { address_cells = cells }) d')
  rewrite_property Kind.size_cells node prop d = do
    v ← raw_of (d.properties prop).value
    let cells = read_big_endian32 m v.ptr
    d' ← rewrite_value (λ _. Data.size_cells cells) prop d
    if ltb 2 cells
        then done (some (of_code ErrorCode.dt_size_cells_too_large), d')
        else done (none, set_node node (record (d'.nodes node) { size_cells = cells }) d')
  rewrite_property Kind.dma_coherent node prop d = do
    d' ← rewrite_value (λ _. Data.dma_coherence true) prop d
    done (none, d')
  rewrite_property Kind.dma_noncoherent node prop d = do
    d' ← rewrite_value (λ _. Data.dma_coherence false) prop d
    done (none, d')
  rewrite_property Kind.device_type node prop d = do
    d' ← rewrite_value (λ v. Data.device_type v) prop d
    done (none, d')
  rewrite_property Kind.virtual_reg node prop d = do
    d' ← rewrite_value (λ v. Data.virtual_reg (read_big_endian32 m v.ptr)) prop d
    done (none, d')
  rewrite_property Kind.interrupt_parent node prop d = do
    d' ← rewrite_value (λ v. Data.interrupt_parent (read_big_endian32 m v.ptr)) prop d
    done (none, d')
  rewrite_property Kind.interrupt_cells node prop d = do
    d' ← rewrite_value (λ v. Data.interrupt_cells (read_big_endian32 m v.ptr)) prop d
    done (none, d')
  rewrite_property Kind.interrupt_controller node prop d = do
    d' ← rewrite_value (λ v. Data.interrupt_controller v) prop d
    done (none, d')
  rewrite_property Kind.untouched node prop d = done (none, d)
  rewrite_property Kind.unhandled node prop d = done (none, d)

  -- The first pass over the list of properties.
  unfoldable pub first_pass :
      (fuel : ℕ) → (node : Ref) → Option Ref → DeviceTree → Run (Option Error × DeviceTree)
  first_pass zero node prop d = halt
  first_pass (suc fuel) node none d = done (none, d)
  first_pass (suc fuel) node (some prop) d = do
    (failed, d') ← rewrite_property (kind_of (d.properties prop).name m) node prop d
    elim failed [
      | some err ↦ done (some err, d')
      | none ↦ first_pass fuel node (d'.properties prop).next_property d'
    ]

  -- The second pass, on `reg`, `ranges` and `bus-ranges`.
  unfoldable pub second_pass : (fuel : ℕ) → (node : Ref) → Option Ref → DeviceTree → Run DeviceTree
  second_pass zero node prop d = halt
  second_pass (suc fuel) node none d = done d
  second_pass (suc fuel) node (some prop) d =
      let name = (d.properties prop).name in
      let rewritten =
        if is_text "reg" name m
        then property_rewrite_reg m hhdm_base node prop d
        else if is_text "ranges" name m
        then property_rewrite_ranges m hhdm_base node prop d
        else if is_text "bus-ranges" name m
        then property_rewrite_ranges m hhdm_base node prop d
        else done d in
      rewritten >>= λ d'. second_pass fuel node (d'.properties prop).next_property d'

  -- A node, and the list of children from one on; the depth and the lists' lengths bound the rounds.
  unfoldable mutual
    pub rewrite_node : (fuel : ℕ) → (node : Ref) → DeviceTree → Run (Error × DeviceTree)
    rewrite_node zero node d = halt
    rewrite_node (suc fuel) node d = do
      (failed, d₁) ← first_pass fuel node (d.nodes node).properties d
      elim failed [
        | some err ↦ done (err, d₁)
        | none ↦ second_pass fuel node (d₁.nodes node).properties d₁ >>= λ d₂.
            rewrite_children fuel (d₂.nodes node).children d₂
      ]

    pub rewrite_children : (fuel : ℕ) → Option Ref → DeviceTree → Run (Error × DeviceTree)
    rewrite_children zero child d = halt
    rewrite_children (suc fuel) none d = done (empty_error, d)
    rewrite_children (suc fuel) (some child) d = do
      (err, d') ← rewrite_node fuel child d
      elim (is_err err) [
        | true ↦ done (err, d')
        | false ↦ rewrite_children fuel (d'.nodes child).next_sibling d'
      ]

  -- Behind the loop over the tokens; `root_name` is where the literal "/" stands.
  unfoldable pub rewrite_pass :
      (fuel : ℕ) → (root_name : View) → DeviceTree → Run (Error × DeviceTree)
  rewrite_pass fuel root_name d =
      if d.node_stack.size == 0 then done (of_code ErrorCode.dt_no_nodes, d) else (do
        let root : Ref = record { buffer = d.node_stack.buffer; index = 0 }
        let start =
            set_node root (record (d.nodes root) { address_cells = 2; size_cells = 1 })
              (record d { root = some root })
        (err, d') ← rewrite_node fuel root start
        elim (is_err err) [
          | true ↦ done (push err ErrorCode.dt_rewrite_failed, d')
          | false ↦ done (
            of_code ErrorCode.success,
            set_node root (record (d'.nodes root) { name = root_name })
                (record d' { initialized = true }),
          )
        ])

  unfoldable pub parse_from_blob :
      (fuel : ℕ) (root_name : View) (dtb : ℕ) → DeviceTree → Run (Error × DeviceTree)
  parse_from_blob fuel root_name dtb d =
      if not (flip_endianness32 (load 4 m dtb) == 0xD00DFEED)
      then done (of_code ErrorCode.dt_magic_number, d)
      else (do
        d₁ ←
            read_reserved hhdm_base text_fuel m fuel (dtb + flip_endianness32 (load 4 m (dtb + 16)))
              d
        let structures = dtb + flip_endianness32 (load 4 m (dtb + 8))
        let strings = dtb + flip_endianness32 (load 4 m (dtb + 12))
        d₂ ←
            parse_structures hhdm_base text_fuel m fuel structures strings
              (record { current = none; offset = 0; depth = 0; tree = d₁ })
        rewrite_pass fuel root_name d₂)
