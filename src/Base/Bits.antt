-- ===== src/Base/Bits.antt =====
-- `&` and `|` at variables: with a mask of low bits, with a shifted mask, and of disjoint fields.
use Prim.Native.Nat.{ℕ, zero, suc, ◌+◌, ◌-◌, ◌*◌, ◌/◌, ◌%◌, ◌^◌, ◌≤◌, ◌<◌, min, max}
use Prim.Native.Nat.{bit_and, bit_or, digits, bitwise, bit_and-bitwise, bit_or-bitwise}
use mathlib.Core.Path.{◌≡◌, refl, ap, ◌∙◌, sym}
use native.Mathlib.Nat.{
  pow-suc, one-le-pow, le_refl, add-zero, mul-one, mul_comm, div-div-eq-div-mul, div-one, mod-one,
  div-lt_iff_lt-mul, div-add-mod, mod-eq_of_lt,
}
use native.Mathlib.Omega.{arith}

-- Both operations recur on binary digits with a count to go. Two counts that suffice agree.
module _ (rest : ℕ → ℕ) (op : ℕ → ℕ → ℕ) where
  digits_enough : (j k x y : ℕ) → x ≤ j → x ≤ k → digits rest op j x y ≡ digits rest op k x y
  digits_enough zero zero x y hj hk = refl
  digits_enough zero (suc k) zero y hj hk = refl
  digits_enough zero (suc k) (suc x) y hj hk = elim hj [ ]
  digits_enough (suc j) zero zero y hj hk = refl
  digits_enough (suc j) zero (suc x) y hj hk = elim hk [ ]
  digits_enough (suc j) (suc k) zero y hj hk = refl
  digits_enough (suc j) (suc k) (suc x) y hj hk =
      ap (λ (t : ℕ). t * 2 + op (suc x % 2) (y % 2))
        (digits_enough j k (suc x / 2) (y / 2) (omega arith) (omega arith))

  bitwise-halves :
      (x y : ℕ)
      → bitwise rest op (suc x) y ≡ bitwise rest op (suc x / 2) (y / 2) * 2 + op (suc x % 2) (y % 2)
  bitwise-halves x y =
      ap (λ (t : ℕ). t * 2 + op (suc x % 2) (y % 2))
        (digits_enough x (suc x / 2) (suc x / 2) (y / 2) (omega arith) (le_refl _))

-- The lowest digit apart from the others.
pub bit_and-halves : (x y : ℕ) → bit_and x y ≡ bit_and (x / 2) (y / 2) * 2 + min (x % 2) (y % 2)
bit_and-halves zero y = simp bit_and-bitwise (omega arith)
bit_and-halves (suc x) y = simp bit_and-bitwise (bitwise-halves (λ _. 0) min x y)

pub bit_or-halves : (x y : ℕ) → bit_or x y ≡ bit_or (x / 2) (y / 2) * 2 + max (x % 2) (y % 2)
bit_or-halves zero y = simp bit_or-bitwise (omega arith)
bit_or-halves (suc x) y = simp bit_or-bitwise (bitwise-halves (λ b. b) max x y)

bit_and-none_below : (b x : ℕ) → x ≤ b → bit_and x 0 ≡ 0
bit_and-none_below b zero h = refl
bit_and-none_below zero (suc x) h = elim h [ ]
bit_and-none_below (suc b) (suc x) h =
    omega (arith, bit_and-halves (suc x) 0, bit_and-none_below b (suc x / 2) (omega arith))

pub bit_and-zero : (x : ℕ) → bit_and x 0 ≡ 0
bit_and-zero x = bit_and-none_below x x (le_refl x)

pub zero-bit_and : (x : ℕ) → bit_and 0 x ≡ 0
zero-bit_and x = bit_and-bitwise 0 x

bit_or-none_below : (b x : ℕ) → x ≤ b → bit_or x 0 ≡ x
bit_or-none_below b zero h = refl
bit_or-none_below zero (suc x) h = elim h [ ]
bit_or-none_below (suc b) (suc x) h =
    omega (arith, bit_or-halves (suc x) 0, bit_or-none_below b (suc x / 2) (omega arith))

pub bit_or-zero : (x : ℕ) → bit_or x 0 ≡ x
bit_or-zero x = bit_or-none_below x x (le_refl x)

pub zero-bit_or : (x : ℕ) → bit_or 0 x ≡ x
zero-bit_or x = bit_or-bitwise 0 x

shift_suc : (q k : ℕ) → q * 2 ^ suc k ≡ 2 * (q * 2 ^ k)
shift_suc q k = omega (arith, ap (λ (t : ℕ). q * t) (pow-suc 2 k))

pub two_pow_pos : (k : ℕ) → 1 ≤ 2 ^ k
two_pow_pos k = one-le-pow k 2 (omega arith)

pub pow_add : (j k : ℕ) → 2 ^ (j + k) ≡ 2 ^ j * 2 ^ k
pow_add j zero = ap (λ (t : ℕ). 2 ^ t) (add-zero j) ∙ sym (mul-one (2 ^ j))
pow_add j (suc k) =
    ap (λ (t : ℕ). 2 ^ t) {x = j + suc k} {y = suc (j + k)} (omega arith)
    ∙ omega (arith, pow-suc 2 (j + k), pow_add j k, shift_suc (2 ^ j) k)

half-shift : (x k : ℕ) → x / 2 ^ suc k ≡ x / 2 / 2 ^ k
half-shift x k = rw (div-div-eq-div-mul, pow-suc, mul_comm (2 ^ k) 2) refl

-- A shifted mask selects from the shifted number.
pub bit_and_shifted : (k m x : ℕ) → bit_and x (m * 2 ^ k) ≡ bit_and (x / 2 ^ k) m * 2 ^ k
bit_and_shifted zero m x = rw (mul-one m, div-one x) (omega arith)
bit_and_shifted (suc k) m x = ground (
  arith,
  bit_and-halves x (m * 2 ^ suc k),
  shift_suc m k,
  shift_suc (bit_and (x / 2 ^ suc k) m) k,
  half-shift x k,
  bit_and_shifted k m (x / 2),
)

mod-halves : (x k : ℕ) → x % 2 ^ suc k ≡ x / 2 % 2 ^ k * 2 + x % 2
mod-halves x k = omega (
  arith,
  div-add-mod x (2 ^ suc k),
  div-add-mod (x / 2) (2 ^ k),
  ap (λ (t : ℕ). 2 ^ suc k * t) (half-shift x k),
  ap (λ (t : ℕ). t * (x / 2 / 2 ^ k)) (pow-suc 2 k),
)

-- A mask of `k` ones is the remainder by `2 ^ k`.
pub bit_and_mask : (k x : ℕ) → bit_and x (2 ^ k - 1) ≡ x % 2 ^ k
bit_and_mask zero x = rw (bit_and-zero x) (omega arith)
bit_and_mask (suc k) x = ground (
  arith,
  bit_and-halves x (2 ^ suc k - 1),
  pow-suc 2 k,
  two_pow_pos k,
  mod-halves x k,
  bit_and_mask k (x / 2),
)

-- Disjoint fields add up.
pub bit_or_fields : (k q r : ℕ) → r < 2 ^ k → bit_or (q * 2 ^ k) r ≡ q * 2 ^ k + r
bit_or_fields zero q r h = ground (arith, bit_or-zero q)
bit_or_fields (suc k) q r h = ground (
  arith,
  bit_or-halves (q * 2 ^ suc k) r,
  shift_suc q k,
  pow-suc 2 k,
  bit_or_fields k q (r / 2) (omega (arith, pow-suc 2 k)),
)

bit_or_comm_below : (b x y : ℕ) → x ≤ b → bit_or x y ≡ bit_or y x
bit_or_comm_below b zero y h = zero-bit_or y ∙ sym (bit_or-zero y)
bit_or_comm_below zero (suc x) y h = elim h [ ]
bit_or_comm_below (suc b) (suc x) y h = omega (
  arith,
  bit_or-halves (suc x) y,
  bit_or-halves y (suc x),
  bit_or_comm_below b (suc x / 2) (y / 2) (omega arith),
)

pub bit_or_comm : (x y : ℕ) → bit_or x y ≡ bit_or y x
bit_or_comm x y = bit_or_comm_below x x y (le_refl x)

pred_mul : (a c : ℕ) → 1 ≤ a → (a - 1) * c + c ≡ a * c
pred_mul zero c h = elim h [ ]
pred_mul (suc a) c h = ground arith

-- Clearing the low `k` bits of a 64-bit number by the complement of a mask.
pub bit_and_clear :
    (j k x : ℕ) → j + k ≡ 64 → x < 2 ^ 64 → bit_and x (2 ^ 64 - 2 ^ k) ≡ x / 2 ^ k * 2 ^ k
bit_and_clear j k x e h =
    ap (bit_and x) mask
    ∙ bit_and_shifted k (2 ^ j - 1) x
    ∙ ap (λ (t : ℕ). t * 2 ^ k) (bit_and_mask j (x / 2 ^ k) ∙ mod-eq_of_lt below)
  where
    split : 2 ^ 64 ≡ 2 ^ j * 2 ^ k
    split = ap (λ (t : ℕ). 2 ^ t) {x = 64} {y = j + k} (sym e) ∙ pow_add j k

    mask : 2 ^ 64 - 2 ^ k ≡ (2 ^ j - 1) * 2 ^ k
    mask = omega (arith, split, pred_mul (2 ^ j) (2 ^ k) (two_pow_pos j))

    below : x / 2 ^ k < 2 ^ j
    below = (div-lt_iff_lt-mul (two_pow_pos k)).1 (omega (arith, split))

le-bit_or_below : (b x y : ℕ) → y ≤ b → y ≤ bit_or x y
le-bit_or_below b x zero h = omega arith
le-bit_or_below zero x (suc y) h = elim h [ ]
le-bit_or_below (suc b) x (suc y) h =
    omega (arith, bit_or-halves x (suc y), le-bit_or_below b (x / 2) (suc y / 2) (omega arith))

pub le-bit_or : (x y : ℕ) → y ≤ bit_or x y
le-bit_or x y = le-bit_or_below y x y (le_refl y)

-- The low bits of `|` are `|` of the low bits.
pub bit_or-mod : (k x y : ℕ) → bit_or x y % 2 ^ k ≡ bit_or (x % 2 ^ k) (y % 2 ^ k)
bit_or-mod zero x y = rw (mod-one (bit_or x y), mod-one x, mod-one y) refl
bit_or-mod (suc k) x y = ground (
  arith,
  mod-halves (bit_or x y) k,
  mod-halves x k,
  mod-halves y k,
  bit_or-halves x y,
  bit_or-halves (x % 2 ^ suc k) (y % 2 ^ suc k),
  bit_or-mod k (x / 2) (y / 2),
)
