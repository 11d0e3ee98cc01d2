-- ===== src/DeviceTree/Rewritten.antt =====
-- What the rewriting pass makes of a tree, said without the stores.
use octiron.Base.{
  ℕ, suc, ◌⊎◌, ◌+◌, ◌*◌, ◌≤◌, ◌≡◌, Bool, true, false, Option, none, some, List, [], ◌∷◌,
}
use octiron.Number.{Bytes, read_big_endian32}
use octiron.View.{View}
use octiron.DeviceTree.{Data}
use octiron.DeviceTree.Names.{Kind, kind_of, is_text}
use octiron.DeviceTree.Rewrite.{status_of}
use octiron.DeviceTree.Layout.{Forest}
use octiron.DeviceTree.Texts.{AreTexts, held_texts}
use octiron.DeviceTree.Regs.{ArePairs, pairs_of}
use octiron.DeviceTree.Trips.{AreTrips, trips_of}

-- The numbers of cells of a node's parent, if it has one.
abbrev pub ParentCells : Type 0
ParentCells = Option (ℕ × ℕ)

-- The requests for memory that the passes make, before `k` more.
abbrev pub with_first : Kind → ℕ → ℕ
with_first Kind.compatible k = suc k
with_first _ k = k

abbrev pub with_second : (is_reg is_ranges is_bus_ranges : Bool) → ℕ → ℕ
with_second true ranges bus_ranges k = suc (suc k)
with_second false true bus_ranges k = suc (suc (suc k))
with_second false false true k = suc (suc (suc k))
with_second false false false k = k

module _ (m : Bytes) where
  abbrev pub first_requests : List (View × Data) → ℕ → ℕ
  first_requests [] k = k
  first_requests ((name, value) ∷ xs) k = with_first (kind_of name m) (first_requests xs k)

  abbrev pub second_requests : List (View × Data) → ℕ → ℕ
  second_requests [] k = k
  second_requests ((name, value) ∷ xs) k =
      with_second (is_text "reg" name m) (is_text "ranges" name m) (is_text "bus-ranges" name m)
        (second_requests xs k)

  abbrev pub requests_of : Forest → ℕ → ℕ
  requests_of Forest.nil k = k
  requests_of (Forest.tree name a z ps ts rest) k =
      first_requests ps (second_requests ps (requests_of ts (requests_of rest k)))

module _ (hhdm_base text_fuel most : ℕ) (m : Bytes) where
  -- The first pass: the new value of a property whose raw value is `v`, by its kind.
  abbrev pub Becomes : Kind → View → Data → Type 0
  Becomes Kind.compatible v x =
      (texts : List View) × AreTexts m text_fuel v.ptr v.size texts
      × (8 * (v.size + 1) ≤ most)
      × (x ≡ held_texts texts)
  Becomes Kind.model v x = x ≡ Data.model v
  Becomes Kind.phandle v x = x ≡ Data.phandle (read_big_endian32 m v.ptr)
  Becomes Kind.status v x = x ≡ status_of hhdm_base text_fuel m v
  Becomes Kind.address_cells v x =
      (read_big_endian32 m v.ptr ≤ 3) × (x ≡ Data.address_cells (read_big_endian32 m v.ptr))
  Becomes Kind.size_cells v x =
      (read_big_endian32 m v.ptr ≤ 2) × (x ≡ Data.size_cells (read_big_endian32 m v.ptr))
  Becomes Kind.dma_coherent v x = x ≡ Data.dma_coherence true
  Becomes Kind.dma_noncoherent v x = x ≡ Data.dma_coherence false
  Becomes Kind.device_type v x = x ≡ Data.device_type v
  Becomes Kind.virtual_reg v x = x ≡ Data.virtual_reg (read_big_endian32 m v.ptr)
  Becomes Kind.interrupt_parent v x = x ≡ Data.interrupt_parent (read_big_endian32 m v.ptr)
  Becomes Kind.interrupt_cells v x = x ≡ Data.interrupt_cells (read_big_endian32 m v.ptr)
  Becomes Kind.interrupt_controller v x = x ≡ Data.interrupt_controller v
  Becomes Kind.untouched v x = x ≡ Data.raw v
  Becomes Kind.unhandled v x = x ≡ Data.raw v

  -- The numbers of cells behind a property.
  abbrev pub address_after : Kind → View → ℕ → ℕ
  address_after Kind.address_cells v a = read_big_endian32 m v.ptr
  address_after _ v a = a

  abbrev pub size_after : Kind → View → ℕ → ℕ
  size_after Kind.size_cells v z = read_big_endian32 m v.ptr
  size_after _ v z = z

  -- The first pass over a list, from these cells to those.
  abbrev pub Firsts :
      (address_cells size_cells : ℕ)
      → List (View × Data)
      → List (View × Data)
      → (address_cells' size_cells' : ℕ) → Type 0
  Firsts a z [] [] a' z' = (a' ≡ a) × (z' ≡ z)
  Firsts a z [] (y ∷ ys) a' z' = ⊥
  Firsts a z (x ∷ xs) [] a' z' = ⊥
  Firsts a z ((name, value) ∷ xs) ((name', value') ∷ ys) a' z' =
      (v : View) × (value ≡ Data.raw v)
      × (name' ≡ name)
      × Becomes (kind_of name m) v value'
      × Firsts (address_after (kind_of name m) v a) (size_after (kind_of name m) v z) xs ys a' z'

  -- The second pass: `reg` by the parent's cells, and `ranges` by the node's and the parent's.
  abbrev pub IsReg : ParentCells → (x y : Data) → Type 0
  IsReg none x y = ⊥
  IsReg (some (a, z)) x y =
      (v : View) × (n : ℕ) × (x ≡ Data.raw v) × ArePairs most a z v n × (y ≡ pairs_of m a z v n)

  abbrev pub AreTripsOf : (address_cells size_cells : ℕ) → ParentCells → View → Data → Type 0
  AreTripsOf a z none v y = ⊥
  AreTripsOf a z (some (pa, pz)) v y =
      (n : ℕ) × AreTrips most a pa z v n × (y ≡ trips_of m a pa z v n)

  abbrev pub IsRange : (address_cells size_cells : ℕ) → ParentCells → (x y : Data) → Type 0
  IsRange a z c x y =
      (v : View) × (x ≡ Data.raw v)
      × (((v.size ≡ 0) × (y ≡ Data.ranges 0 [] [] [])) ⊎ AreTripsOf a z c v y)

  abbrev pub BecomesLater :
      (address_cells size_cells : ℕ)
      → ParentCells
      → (is_reg is_ranges is_bus_ranges : Bool) → (x y : Data) → Type 0
  BecomesLater a z c true ranges bus_ranges x y = IsReg c x y
  BecomesLater a z c false true bus_ranges x y = IsRange a z c x y
  BecomesLater a z c false false true x y = IsRange a z c x y
  BecomesLater a z c false false false x y = y ≡ x

  abbrev pub Seconds :
      (address_cells size_cells : ℕ)
      → ParentCells
      → List (View × Data)
      → List (View × Data)
      → Type 0
  Seconds a z c [] [] = Unit {0}
  Seconds a z c [] (y ∷ ys) = ⊥
  Seconds a z c (x ∷ xs) [] = ⊥
  Seconds a z c ((name, value) ∷ xs) ((name', value') ∷ ys) =
      (name' ≡ name)
      × BecomesLater a z c (is_text "reg" name m) (is_text "ranges" name m)
          (is_text "bus-ranges" name m) value value'
      × Seconds a z c xs ys

  -- A list of trees and the trees that they become.
  abbrev pub Rewrites : ParentCells → Forest → Forest → Type 0
  Rewrites c Forest.nil Forest.nil = Unit {0}
  Rewrites c Forest.nil (Forest.tree name' a' z' ps' ts' rest') = ⊥
  Rewrites c (Forest.tree name a z ps ts rest) Forest.nil = ⊥
  Rewrites c (Forest.tree name a z ps ts rest) (Forest.tree name' a' z' ps' ts' rest') =
      (name' ≡ name)
      × ((mid : List (View × Data)) × Firsts a z ps mid a' z' × Seconds a' z' c mid ps')
      × Rewrites (some (a', z')) ts ts'
      × Rewrites c rest rest'
