-- ===== src/DeviceTree/Regs.antt =====
-- `property_rewrite_reg` on a value of whole pairs, with at most two cells for each number.
use octiron.Base.{
  ℕ, suc, ◌+◌, ◌*◌, ◌/◌, ◌%◌, ◌≤◌, ◌<◌, ◌≡◌, ◌∙◌, refl, done, arith, true, false, ltb, leb, ◌==◌,
  List,
}
use native.Mathlib.Nat.{mul-div_cancel, mul-mod_left}
use octiron.Number.{Bytes, u32}
use octiron.Number.Endian.{IsBytes}
use octiron.View.{View}
use octiron.Pmm.{Pmm}
use octiron.Bump.{BumpAlloc}
use octiron.Stack.{Ref}
use octiron.DeviceTree.{DeviceTree, Data, set_property}
use octiron.DeviceTree.Cells.{rewrite_reg, reg_value, reg_width}
use octiron.DeviceTree.Pairs.{numbers, read_pairs_lem}
use octiron.DeviceTree.Grants.{Grants, Taken, take_numbers}

-- The value is `n` pairs of an address and a size with these numbers of cells.
pub record ArePairs (most address_cells size_cells : ℕ) (v : View) (n : ℕ) : Type 0 where
  pub few_address_cells : address_cells ≤ 2
  pub few_size_cells : size_cells ≤ 2
  pub some_cells : 0 < address_cells + size_cells
  pub some_pair : 0 < n
  pub whole : v.size ≡ n * (4 * address_cells + 4 * size_cells)
  pub small : v.size ≤ most

-- What the value says.
abbrev pub pairs_of : (m : Bytes) (address_cells size_cells : ℕ) → View → (n : ℕ) → Data
pairs_of m address_cells size_cells v n =
    let stride = 4 * address_cells + 4 * size_cells in
    Data.reg n (numbers n address_cells stride v.ptr m)
      (numbers n size_cells stride (v.ptr + 4 * address_cells) m)

-- The tree with another value of a property, and with the allocators as a rewriting leaves them.
abbrev pub with_value : Ref → Data → Pmm → BumpAlloc → DeviceTree → DeviceTree
with_value r x s b d =
    set_property r (record (d.properties r) { value = x }) (record d { pmm = s; bump = b })

spread : (n a z : ℕ) → n * (4 * a + 4 * z) ≡ 4 * a * n + 4 * z * n
spread n a z = grind arith

-- Up to two cells the array has room for all the addresses.
reg_value-whole :
    (cells n : ℕ) (addresses sizes : List ℕ)
    → cells ≤ 2
    → reg_value cells n (4 * cells * n) addresses sizes ≡ Data.reg n addresses sizes
unfolding reg_value
reg_value-whole cells n addresses sizes h =
    let few : (cells == 3) ≡ false = ground (arith, h) in
    let fits : ltb (4 * cells * n) (4 * cells * n) ≡ false = ground arith in
    rw (reg_value, reg_width, few, fits) refl

module _ (m : Bytes) (hhdm_base most : ℕ) where
  -- The run, with the memory for the two arrays.
  rewrite_reg_runs :
      (k a z n : ℕ) (v : View) (r : Ref) (d : DeviceTree)
      → IsBytes m
      → ArePairs most a z v n
      → (d.properties r).value ≡ Data.raw v
      → (one : Taken hhdm_base most (suc k) (4 * a * n) (4 * a) d)
      → (two : Taken hhdm_base most k
          (4 * z * n)
          (4 * z)
          (record d { pmm = one.pmm; bump = one.bump }))
      → rewrite_reg m hhdm_base a z r d
        ≡ done (with_value r (pairs_of m a z v n) two.pmm two.bump d)
  unfolding rewrite_reg
  rewrite_reg_runs k a z n v r d bytes ok e one two =
      let size_a : u32 (4 * a) ≡ 4 * a = omega (arith, ok.few_address_cells) in
      let size_z : u32 (4 * z) ≡ 4 * z = omega (arith, ok.few_size_cells) in
      let size_p : u32 (4 * a + 4 * z) ≡ 4 * a + 4 * z =
        omega (arith, ok.few_address_cells, ok.few_size_cells) in
      let stride : (4 * a + 4 * z == 0) ≡ false = ground (arith, ok.some_cells) in
      let count : v.size / (4 * a + 4 * z) ≡ n =
        rw ok.whole (mul-div_cancel n {n = 4 * a + 4 * z} (omega (arith, ok.some_cells))) in
      let rem : v.size % (4 * a + 4 * z) ≡ 0 = rw ok.whole (mul-mod_left n (4 * a + 4 * z)) in
      let some_pair : ltb 0 n ≡ true = ground (arith, ok.some_pair) in
      let few_a : leb a 3 ≡ true = ground (arith, ok.few_address_cells) in
      let few_z : leb z 2 ≡ true = ground (arith, ok.few_size_cells) in
      rw
        (
          e,
          size_a,
          size_z,
          size_p,
          stride,
          count,
          some_pair,
          rem,
          few_a,
          few_z,
          one.runs,
          two.runs,
          one.there,
          two.there,
          read_pairs_lem m n a z v.ptr bytes ok.few_address_cells ok.few_size_cells,
          reg_value-whole a n (numbers n a (4 * a + 4 * z) v.ptr m)
              (numbers n z (4 * a + 4 * z) (v.ptr + 4 * a) m) ok.few_address_cells,
        )
        refl

  pub rewrite_reg-pairs_of :
      (k a z n : ℕ) (v : View) (r : Ref) (d : DeviceTree)
      → IsBytes m
      → ArePairs most a z v n
      → (d.properties r).value ≡ Data.raw v
      → Grants hhdm_base most (suc (suc k)) d.pmm d.bump
      → (s : Pmm) × (b : BumpAlloc) × (rewrite_reg m hhdm_base a z r d
          ≡ done (with_value r (pairs_of m a z v n) s b d))
        × Grants hhdm_base most k s b
  rewrite_reg-pairs_of k a z n v r d bytes ok e h =
      let split : v.size ≡ 4 * a * n + 4 * z * n = ok.whole ∙ spread n a z in
      let one : Taken hhdm_base most (suc k) (4 * a * n) (4 * a) d =
        take_numbers hhdm_base most (suc k) a n d ok.few_address_cells ok.some_pair
          (omega (arith, split, ok.small)) h in
      let d₁ = record d { pmm = one.pmm; bump = one.bump } in
      let two : Taken hhdm_base most k (4 * z * n) (4 * z) d₁ =
        take_numbers hhdm_base most k z n d₁ ok.few_size_cells ok.some_pair
          (omega (arith, split, ok.small)) one.grants in
      (two.pmm, two.bump, rewrite_reg_runs k a z n v r d bytes ok e one two, two.grants)
