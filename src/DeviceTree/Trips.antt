-- ===== src/DeviceTree/Trips.antt =====
-- `property_rewrite_ranges` on a value of whole triples, with one or two cells for each address.
use native.Mathlib.Nat.{mul-div_cancel, mul-mod_left}
use octiron.Base.{
  ℕ, zero, suc, ◌+◌, ◌*◌, ◌/◌, ◌%◌, ◌≤◌, ◌<◌, ◌≡◌, ◌∙◌, refl, done, arith, true, false, ltb, leb,
  not, if◌then◌else◌, List, ◌==◌,
}
use octiron.Number.{Bytes, u32}
use octiron.Number.Endian.{IsBytes, read_big_endian_lem}
use octiron.View.{View}
use octiron.Pmm.{Pmm}
use octiron.Bump.{BumpAlloc}
use octiron.Stack.{Ref}
use octiron.DeviceTree.{DeviceTree, Data}
use octiron.DeviceTree.Cells.{
  read_range_address, read_trips, rewrite_ranges, range_value, range_width, store_at,
}
use octiron.DeviceTree.Pairs.{number, numbers, read_size-number}
use octiron.DeviceTree.Grants.{Grants, Taken, take_numbers}
use octiron.DeviceTree.Regs.{with_value}

-- The value is `n` triples of a child's address, a parent's address and a size with these cells.
pub record AreTrips (most child_cells parent_cells size_cells : ℕ) (v : View) (n : ℕ) : Type 0 where
  pub some_child_cells : 0 < child_cells
  pub few_child_cells : child_cells ≤ 2
  pub some_parent_cells : 0 < parent_cells
  pub few_parent_cells : parent_cells ≤ 2
  pub no_more_parent_cells : parent_cells ≤ child_cells
  pub few_size_cells : size_cells ≤ 2
  pub some_trip : 0 < n
  pub whole : v.size ≡ n * (4 * child_cells + 4 * parent_cells + 4 * size_cells)
  pub small : v.size ≤ most

-- What the value says.
abbrev pub trips_of : (m : Bytes) (child_cells parent_cells size_cells : ℕ) → View → (n : ℕ) → Data
trips_of m c p z v n =
    let stride = 4 * c + 4 * p + 4 * z in
    Data.ranges n (numbers n c stride v.ptr m) (numbers n p stride (v.ptr + 4 * c) m)
      (numbers n z stride (v.ptr + 4 * c + 4 * p) m)

read_range_address-number :
    (m : Bytes) (cells p : ℕ)
    → IsBytes m
    → 0 < cells
    → cells ≤ 2
    → read_range_address m cells p ≡ done (number cells p m)
unfolding read_range_address
read_range_address-number m zero p b some_cells h = absurd (omega (arith, some_cells))
read_range_address-number m (suc zero) p b some_cells h = rw (read_big_endian_lem m p b).0 refl
read_range_address-number m (suc (suc zero)) p b some_cells h =
    rw (read_big_endian_lem m p b).1 refl
read_range_address-number m (suc (suc (suc n))) p b some_cells h = absurd (omega (arith, h))

spread : (n c p z : ℕ) → n * (4 * c + 4 * p + 4 * z) ≡ 4 * c * n + 4 * p * n + 4 * z * n
spread n c p z = grind arith

module _ (m : Bytes) (bytes : IsBytes m) (c a z : ℕ) (some_c : 0 < c) (few_c : c ≤ 2)
    (some_a : 0 < a) (few_a : a ≤ 2) (few_z : z ≤ 2) where
  read_trips-numbers :
      (count p : ℕ)
      → let stride = 4 * c + 4 * a + 4 * z in
        read_trips m count c a z p
        ≡ done (
          numbers count c stride p m,
          numbers count a stride (p + 4 * c) m,
          numbers count z stride (p + 4 * c + 4 * a) m,
        )
  unfolding read_trips
  read_trips-numbers zero p = refl
  read_trips-numbers (suc count) p =
      let next : p + (4 * c + 4 * a + 4 * z) ≡ p + 4 * c + 4 * a + 4 * z = omega arith in
      let next_a : p + 4 * c + (4 * c + 4 * a + 4 * z) ≡ p + 4 * c + 4 * a + 4 * z + 4 * c =
        omega arith in
      let next_z : p + 4 * c + 4 * a + (4 * c + 4 * a + 4 * z)
          ≡ p + 4 * c + 4 * a + 4 * z + 4 * c + 4 * a =
        omega arith in
      rw
        (
          next,
          next_a,
          next_z,
          read_range_address-number m c p bytes some_c few_c,
          read_range_address-number m a (p + 4 * c) bytes some_a few_a,
          read_size-number m z (p + 4 * c + 4 * a) bytes few_z,
          read_trips-numbers count (p + 4 * c + 4 * a + 4 * z),
        )
        refl

mul_pos : (n k : ℕ) → 0 < n → 0 < k → 0 < n * k
mul_pos zero k p q = elim p [ ]
mul_pos (suc n) zero p q = elim q [ ]
mul_pos (suc n) (suc k) p q = grind arith

pub AreTrips-size :
    (most c a z : ℕ) (v : View) (n : ℕ) → AreTrips most c a z v n → (v.size == 0) ≡ false
AreTrips-size most c a z v n ok =
    let positive =
      mul_pos n (4 * c + 4 * a + 4 * z) ok.some_trip (omega (arith, ok.some_child_cells)) in
    ground (arith, positive, ok.whole)

-- With no more cells for the parent, its array has room for all the addresses.
range_value-whole :
    (c p n : ℕ) (children parents sizes : List ℕ)
    → p ≤ c
    → p ≤ 2
    → range_value p n (4 * c * n) children parents sizes ≡ Data.ranges n children parents sizes
unfolding range_value
range_value-whole c p n children parents sizes le h =
    let few : (p == 3) ≡ false = ground (arith, h) in
    let below : 4 * p * n ≤ 4 * c * n = grind (arith, le) in
    let fits : ltb (4 * c * n) (4 * p * n) ≡ false = ground (arith, below) in
    rw (range_value, range_width, few, fits) refl

-- A store through the address of an array, which is there unless the elements have no bytes.
store_at-there :
    (array width : ℕ)
    → (if width == 0 then array == 0 else not (array == 0)) ≡ true
    → store_at array width ≡ done tt
unfolding store_at
store_at-there array width h = ground (arith, h)

store_at-other :
    (array width width' : ℕ)
    → 0 < width
    → (if width == 0 then array == 0 else not (array == 0)) ≡ true
    → store_at array width' ≡ done tt
unfolding store_at
store_at-other array width width' p h = ground (arith, p, h)

module _ (m : Bytes) (hhdm_base most : ℕ) where
  rewrite_ranges_runs :
      (k c a z n : ℕ) (v : View) (r : Ref) (d : DeviceTree)
      → IsBytes m
      → AreTrips most c a z v n
      → (one : Taken hhdm_base most (suc (suc k)) (4 * c * n) (4 * c) d)
      → (two : Taken hhdm_base most
          (suc k)
          (4 * c * n)
          (4 * c)
          (record d { pmm = one.pmm; bump = one.bump }))
      → (three : Taken hhdm_base most k
          (4 * z * n)
          (4 * z)
          (record d { pmm = two.pmm; bump = two.bump }))
      → rewrite_ranges m hhdm_base c a z v r d
        ≡ done (with_value r (trips_of m c a z v n) three.pmm three.bump d)
  unfolding rewrite_ranges
  rewrite_ranges_runs k c a z n v r d bytes ok one two three =
      let size_c : u32 (4 * c) ≡ 4 * c = omega (arith, ok.few_child_cells) in
      let size_a : u32 (4 * a) ≡ 4 * a = omega (arith, ok.few_parent_cells) in
      let size_z : u32 (4 * z) ≡ 4 * z = omega (arith, ok.few_size_cells) in
      let size_t : u32 (4 * c + 4 * a + 4 * z) ≡ 4 * c + 4 * a + 4 * z =
        omega (arith, ok.few_child_cells, ok.few_parent_cells, ok.few_size_cells) in
      let stride : (4 * c + 4 * a + 4 * z == 0) ≡ false = ground (arith, ok.some_child_cells) in
      let count : v.size / (4 * c + 4 * a + 4 * z) ≡ n =
        rw ok.whole
          (mul-div_cancel n {n = 4 * c + 4 * a + 4 * z} (omega (arith, ok.some_child_cells))) in
      let rem : v.size % (4 * c + 4 * a + 4 * z) ≡ 0 =
        rw ok.whole (mul-mod_left n (4 * c + 4 * a + 4 * z)) in
      let some_trip : ltb 0 n ≡ true = ground (arith, ok.some_trip) in
      let few_c : leb c 3 ≡ true = ground (arith, ok.few_child_cells) in
      let few_z : leb z 2 ≡ true = ground (arith, ok.few_size_cells) in
      rw
        (
          size_c,
          size_a,
          size_z,
          size_t,
          stride,
          count,
          some_trip,
          rem,
          few_c,
          few_z,
          one.runs,
          two.runs,
          three.runs,
          store_at-there one.address (4 * c) one.there,
          store_at-other two.address (4 * c) (4 * a) (omega (arith, ok.some_child_cells)) two.there,
          store_at-there three.address (4 * z) three.there,
          read_trips-numbers m bytes c a z ok.some_child_cells ok.few_child_cells
              ok.some_parent_cells ok.few_parent_cells ok.few_size_cells n v.ptr,
          range_value-whole c a n (numbers n c (4 * c + 4 * a + 4 * z) v.ptr m)
              (numbers n a (4 * c + 4 * a + 4 * z) (v.ptr + 4 * c) m)
              (numbers n z (4 * c + 4 * a + 4 * z) (v.ptr + 4 * c + 4 * a) m)
              ok.no_more_parent_cells ok.few_parent_cells,
        )
        refl

  pub rewrite_ranges-trips_of :
      (k c a z n : ℕ) (v : View) (r : Ref) (d : DeviceTree)
      → IsBytes m
      → AreTrips most c a z v n
      → Grants hhdm_base most (suc (suc (suc k))) d.pmm d.bump
      → (s : Pmm) × (b : BumpAlloc) × (rewrite_ranges m hhdm_base c a z v r d
          ≡ done (with_value r (trips_of m c a z v n) s b d))
        × Grants hhdm_base most k s b
  rewrite_ranges-trips_of k c a z n v r d bytes ok h =
      let split : v.size ≡ 4 * c * n + 4 * a * n + 4 * z * n = ok.whole ∙ spread n c a z in
      let one : Taken hhdm_base most (suc (suc k)) (4 * c * n) (4 * c) d =
        take_numbers hhdm_base most (suc (suc k)) c n d ok.few_child_cells ok.some_trip
          (omega (arith, split, ok.small)) h in
      let d₁ = record d { pmm = one.pmm; bump = one.bump } in
      let two : Taken hhdm_base most (suc k) (4 * c * n) (4 * c) d₁ =
        take_numbers hhdm_base most (suc k) c n d₁ ok.few_child_cells ok.some_trip
          (omega (arith, split, ok.small)) one.grants in
      let d₂ = record d { pmm = two.pmm; bump = two.bump } in
      let three : Taken hhdm_base most k (4 * z * n) (4 * z) d₂ =
        take_numbers hhdm_base most k z n d₂ ok.few_size_cells ok.some_trip
          (omega (arith, split, ok.small)) two.grants in
      (
        three.pmm,
        three.bump,
        rewrite_ranges_runs k c a z n v r d bytes ok one two three,
        three.grants,
      )
