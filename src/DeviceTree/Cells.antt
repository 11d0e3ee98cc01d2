-- ===== src/DeviceTree/Cells.antt =====
-- `property_rewrite_reg` and `property_rewrite_ranges`. The arrays that the bump allocator gives are
-- listed by the elements that they hold: what is stored behind the bytes that were asked for lands in
-- memory that the next array gets, and is not listed. Where an array's stores reach into the array of
-- sizes behind it, no size is listed either. A store through a null pointer is a fault.
use octiron.Base.{
  ℕ, zero, suc, ◌+◌, ◌*◌, ◌/◌, ◌%◌, not, ltb, leb, ◌==◌, if◌then◌else◌, none, some, Run, done,
  fault, ◌>>=◌, ◌>>◌, List, [], ◌∷◌, ◌++◌,
}
use octiron.Number.{Bytes, u32, u64, read_big_endian32, read_big_endian64, read_big_endian128}
use octiron.Slab.{assert}
use octiron.View.{View}
use octiron.Bump.{alloc_aligned}
use octiron.Stack.{Ref}
use octiron.DeviceTree.{Data, DeviceTree, set_property}

-- The union's member `raw`; the rewriting of another member over it is not undone.
abbrev pub raw_of : Data → Run View
raw_of (Data.raw v) = done v
raw_of (Data.interrupt_controller v) = done v
raw_of (Data.status_unset v) = done v
raw_of _ = fault

-- The first elements of an array, as many as its bytes hold.
abbrev pub held {ℓ} : {A : Type ℓ} → ℕ → List A → List A
held zero xs = []
held (suc n) [] = []
held (suc n) (x ∷ xs) = x ∷ held n xs

-- The bytes of an element, `u32`, `u64` or `u128`, of the addresses of a `reg`, and of those of a
-- `ranges`, which stores a `u64` for three cells.
abbrev pub reg_width : (cells : ℕ) → ℕ
reg_width cells = if cells == 3 then 16 else 4 * cells

abbrev pub range_width : (cells : ℕ) → ℕ
range_width cells = if cells == 3 then 8 else 4 * cells

-- Elements of some bytes are stored from `array` on.
unfoldable pub store_at : (array width : ℕ) → Run (Unit {0})
store_at array width = if width == 0 then done tt else if array == 0 then fault else done tt

-- What the arrays hold of some pairs and trips, where the array of the addresses, or of those on the
-- parent's bus, has `room` bytes.
unfoldable pub reg_value : (cells n room : ℕ) → (addresses sizes : List ℕ) → Data
reg_value cells n room addresses sizes =
    if ltb room (reg_width cells * n)
    then Data.reg n (held (room / reg_width cells) addresses) []
    else Data.reg n addresses sizes

unfoldable pub range_value : (cells n room : ℕ) → (children parents sizes : List ℕ) → Data
range_value cells n room children parents sizes =
    if ltb room (range_width cells * n)
    then Data.ranges n children (held (room / range_width cells) parents) []
    else Data.ranges n children parents sizes

-- A call of the bump allocator on behalf of the tree.
abbrev pub take : (hhdm_base size alignment : ℕ) → DeviceTree → Run (ℕ × DeviceTree)
take hhdm_base size alignment d = do
  (a, s, b) ← alloc_aligned hhdm_base size alignment d.pmm d.bump
  done (a, record d { pmm = s; bump = b })

module _ (m : Bytes) where
  -- The `switch` on the address cells of a `reg`; `__builtin_unreachable` is a fault.
  unfoldable pub read_address : (cells p : ℕ) → Run (List ℕ)
  read_address cells p =
      if cells == 0
      then done []
      else if cells == 1
      then done (read_big_endian32 m p ∷ [])
      else if cells == 2
      then done (read_big_endian64 m p ∷ [])
      else if cells == 3
      then done (read_big_endian128 m p ∷ [])
      else fault

  unfoldable pub read_size : (cells p : ℕ) → Run (List ℕ)
  read_size cells p =
      if cells == 0
      then done []
      else if cells == 1
      then done (read_big_endian32 m p ∷ [])
      else if cells == 2
      then done (read_big_endian64 m p ∷ [])
      else fault

  -- The `switch` on the address cells of a `ranges`, whose array has 64-bit elements.
  unfoldable pub read_range_address : (cells p : ℕ) → Run (List ℕ)
  read_range_address cells p =
      if cells == 1
      then done (read_big_endian32 m p ∷ [])
      else if cells == 2
      then done (read_big_endian64 m p ∷ [])
      else if cells == 3
      then done (u64 (read_big_endian128 m p) ∷ [])
      else fault

  -- The loop over the pairs, with the pairs left and the place of the next one.
  unfoldable pub read_pairs : (left address_cells size_cells p : ℕ) → Run (List ℕ × List ℕ)
  read_pairs zero address_cells size_cells p = done ([], [])
  read_pairs (suc left) address_cells size_cells p = do
    a ← read_address address_cells p
    z ← read_size size_cells (p + 4 * address_cells)
    (addresses, sizes) ←
        read_pairs left address_cells size_cells (p + 4 * address_cells + 4 * size_cells)
    done (a ++ addresses, z ++ sizes)

  unfoldable pub read_trips :
      (left child_cells parent_cells size_cells p : ℕ) → Run (List ℕ × List ℕ × List ℕ)
  read_trips zero child_cells parent_cells size_cells p = done ([], [], [])
  read_trips (suc left) child_cells parent_cells size_cells p = do
    c ← read_range_address child_cells p
    a ← read_range_address parent_cells (p + 4 * child_cells)
    z ← read_size size_cells (p + 4 * child_cells + 4 * parent_cells)
    (children, parents, sizes) ←
        read_trips left child_cells parent_cells size_cells
          (p + 4 * child_cells + 4 * parent_cells + 4 * size_cells)
    done (c ++ children, a ++ parents, z ++ sizes)

  module _ (hhdm_base : ℕ) where
    -- With the parent's cells; a division by 0 is a fault.
    unfoldable pub rewrite_reg : (address_cells size_cells : ℕ) → Ref → DeviceTree → Run DeviceTree
    rewrite_reg address_cells size_cells prop d = do
      bv ← raw_of (d.properties prop).value
      let address_size = u32 (4 * address_cells)
      let size_size = u32 (4 * size_cells)
      let stride = u32 (address_size + size_size)
      if stride == 0 then fault else (do
        let n_pairs = bv.size / stride
        assert (ltb 0 n_pairs)
        assert (bv.size % stride == 0)
        assert (leb address_cells 3)
        assert (leb size_cells 2)
        (address_array, d₁) ← take hhdm_base (address_size * n_pairs) address_size d
        (size_array, d₂) ← take hhdm_base (size_size * n_pairs) size_size d₁
        assert (if address_size == 0 then address_array == 0 else not (address_array == 0))
        assert (if size_size == 0 then size_array == 0 else not (size_array == 0))
        (addresses, sizes) ← read_pairs n_pairs address_cells size_cells bv.ptr
        let value = reg_value address_cells n_pairs (address_size * n_pairs) addresses sizes
        done (set_property prop (record (d₂.properties prop) { value = value }) d₂))

    unfoldable pub property_rewrite_reg : (node prop : Ref) → DeviceTree → Run DeviceTree
    unfolding rewrite_reg
    property_rewrite_reg node prop d = elim (d.nodes node).parent [
      | none ↦ fault
      | some parent ↦ rewrite_reg (d.nodes parent).address_cells (d.nodes parent).size_cells prop d
    ]

    unfoldable pub rewrite_ranges :
        (child_cells parent_cells size_cells : ℕ) → View → Ref → DeviceTree → Run DeviceTree
    rewrite_ranges child_cells parent_cells size_cells bv prop d =
        let child_size = u32 (4 * child_cells) in
        let parent_size = u32 (4 * parent_cells) in
        let size_size = u32 (4 * size_cells) in
        let stride = u32 (child_size + parent_size + size_size) in
        if stride == 0 then fault else (do
          let n_trips = bv.size / stride
          assert (ltb 0 n_trips)
          assert (bv.size % stride == 0)
          assert (leb child_cells 3)
          assert (leb size_cells 2)
          (cbus, d₁) ← take hhdm_base (child_size * n_trips) child_size d
          (pbus, d₂) ← take hhdm_base (child_size * n_trips) child_size d₁
          (size_array, d₃) ← take hhdm_base (size_size * n_trips) size_size d₂
          store_at cbus child_size
          store_at pbus parent_size
          store_at size_array size_size
          (children, parents, sizes) ← read_trips n_trips child_cells parent_cells size_cells bv.ptr
          let value = range_value parent_cells n_trips (child_size * n_trips) children parents sizes
          done (set_property prop (record (d₃.properties prop) { value = value }) d₃))

    unfoldable pub property_rewrite_ranges : (node prop : Ref) → DeviceTree → Run DeviceTree
    unfolding rewrite_ranges
    property_rewrite_ranges node prop d = do
      bv ← raw_of (d.properties prop).value
      if bv.size == 0
          then done
              (set_property prop (record (d.properties prop) { value = Data.ranges 0 [] [] [] }) d)
          else elim (d.nodes node).parent [
            | none ↦ fault
            | some parent ↦
                rewrite_ranges (d.nodes node).address_cells (d.nodes parent).address_cells
                  (d.nodes node).size_cells bv prop d
          ]
