-- ===== src/DeviceTree/Pairs.antt =====
-- What is read from the value of a `reg` property.
use octiron.Base.{ℕ, zero, suc, ◌+◌, ◌*◌, ◌≤◌, ◌≡◌, refl, done, List, [], ◌∷◌, ◌++◌, arith}
use octiron.Number.{Bytes}
use octiron.Number.Endian.{IsBytes, big_endian, read_big_endian_lem}
use octiron.DeviceTree.Cells.{read_address, read_size, read_pairs}

-- One number of some cells, if it has any.
abbrev pub number : (cells p : ℕ) → Bytes → List ℕ
number zero p m = []
number (suc cells) p m = big_endian (4 * suc cells) m p ∷ []

-- The numbers at `count` places with a stride.
abbrev pub numbers : (count cells stride p : ℕ) → Bytes → List ℕ
numbers zero cells stride p m = []
numbers (suc count) cells stride p m = number cells p m ++ numbers count cells stride (p + stride) m

read_address-number :
    (m : Bytes) (cells p : ℕ)
    → IsBytes m
    → cells ≤ 2
    → read_address m cells p ≡ done (number cells p m)
unfolding read_address
read_address-number m zero p b h = refl
read_address-number m (suc zero) p b h = rw (read_big_endian_lem m p b).0 refl
read_address-number m (suc (suc zero)) p b h = rw (read_big_endian_lem m p b).1 refl
read_address-number m (suc (suc (suc n))) p b h = absurd (omega (arith, h))

pub read_size-number :
    (m : Bytes) (cells p : ℕ)
    → IsBytes m
    → cells ≤ 2
    → read_size m cells p ≡ done (number cells p m)
unfolding read_size
read_size-number m zero p b h = refl
read_size-number m (suc zero) p b h = rw (read_big_endian_lem m p b).0 refl
read_size-number m (suc (suc zero)) p b h = rw (read_big_endian_lem m p b).1 refl
read_size-number m (suc (suc (suc n))) p b h = absurd (omega (arith, h))

-- With at most two cells for an address and for a size, the loop over the pairs of a `reg` returns,
-- without a fault, the addresses and the sizes that the value spells highest byte first, one pair
-- behind the other; a number of no cells is not stored.
pub read_pairs_lem :
    (m : Bytes) (count address_cells size_cells p : ℕ)
    → IsBytes m
    → address_cells ≤ 2
    → size_cells ≤ 2
    → let stride = 4 * address_cells + 4 * size_cells in
      read_pairs m count address_cells size_cells p
      ≡ done (
        numbers count address_cells stride p m,
        numbers count size_cells stride (p + 4 * address_cells) m,
      )
unfolding read_pairs
read_pairs_lem m zero a z p b ha hz = refl
read_pairs_lem m (suc count) a z p b ha hz =
    let next : p + (4 * a + 4 * z) ≡ p + 4 * a + 4 * z = omega arith in
    let next_size : p + 4 * a + (4 * a + 4 * z) ≡ p + 4 * a + 4 * z + 4 * a = omega arith in
    rw
      (
        next,
        next_size,
        read_address-number m a p b ha,
        read_size-number m z (p + 4 * a) b hz,
        read_pairs_lem m count a z (p + 4 * a + 4 * z) b ha hz,
      )
      refl
