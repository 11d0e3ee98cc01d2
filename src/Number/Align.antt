-- ===== src/Number/Align.antt =====
-- What `align_up` and `align_down` give for a power of two.
use native.Mathlib.Nat.{mul-mod_left, mul-le-mul_right, mod-lt, div-add-mod'}
use native.Mathlib.Decide.{dec_le}
use mathlib.Core.Path.{ap₂}
use octiron.Base.{
  ℕ, ◌+◌, ◌-◌, ◌*◌, ◌/◌, ◌%◌, ◌^◌, ◌≤◌, ◌<◌, ◌≡◌, ◌↔◌, true, refl, sym, ap, ◌∙◌, bit_and, arith,
  ==_iff,
}
use octiron.Base.Bits.{bit_and_clear, pow_add, two_pow_pos}
use octiron.Number.{align_up, align_down, is_aligned, not64, sub64, u64}

two_pow_fits : (j k : ℕ) → j + k ≡ 64 → 2 ^ j * 2 ^ k ≡ 2 ^ 64
two_pow_fits j k e = sym (pow_add j k) ∙ ap (λ (t : ℕ). 2 ^ t) {x = j + k} {y = 64} e

two_pow_le : (j k : ℕ) → j + k ≡ 64 → 2 ^ k ≤ 2 ^ 64
two_pow_le j k e = grind (arith, two_pow_fits j k e, two_pow_pos j, two_pow_pos k)

sub64-one : (a : ℕ) → 1 ≤ a → a ≤ 2 ^ 64 → sub64 a 1 ≡ a - 1
sub64-one a h l = omega arith

sub64-u64-one : (a : ℕ) → 1 ≤ a → a ≤ 2 ^ 64 → sub64 (u64 a) 1 ≡ a - 1
sub64-u64-one a h l = omega arith

not_mask : (j k : ℕ) → j + k ≡ 64 → not64 (sub64 (2 ^ k) 1) ≡ 2 ^ 64 - 2 ^ k
not_mask j k e =
    ap not64 (sub64-one (2 ^ k) (two_pow_pos k) (two_pow_le j k e))
    ∙ omega (arith, two_pow_pos k, two_pow_le j k e)

align_down_div : (j k v : ℕ) → j + k ≡ 64 → v < 2 ^ 64 → align_down v (2 ^ k) ≡ v / 2 ^ k * 2 ^ k
unfolding align_down
align_down_div j k v e h = ap (bit_and v) (not_mask j k e) ∙ bit_and_clear j k v e h

align_up_div :
    (j k v : ℕ)
    → j + k ≡ 64
    → v + 2 ^ k ≤ 2 ^ 64
    → align_up v (2 ^ k) ≡ (v + 2 ^ k - 1) / 2 ^ k * 2 ^ k
unfolding align_up
align_up_div j k v e h =
    let pos = two_pow_pos k in
    ap₂ bit_and (sub64-u64-one (v + 2 ^ k) (omega (arith, pos)) h) (not_mask j k e)
    ∙ bit_and_clear j k (v + 2 ^ k - 1) e (omega (arith, pos))

multiple_bounds : (x a : ℕ) → 1 ≤ a → (x / a * a ≤ x) × (x < x / a * a + a)
multiple_bounds x a h =
    (omega (arith, div-add-mod' x a), omega (arith, div-add-mod' x a, mod-lt x h))

-- For a power of two, and unless the sum overflows, `align_up` gives the least multiple of the
-- alignment that is not below the value.
pub align_up_lem :
    (k v : ℕ)
    → k ≤ 63
    → v + 2 ^ k ≤ 2 ^ 64
    → (align_up v (2 ^ k) % 2 ^ k ≡ 0) × (v ≤ align_up v (2 ^ k)) × (align_up v (2 ^ k) < v + 2 ^ k)
align_up_lem k v hk h = rw (align_up_div (64 - k) k v (omega arith) h) (
  mul-mod_left _ (2 ^ k),
  omega (arith, multiple_bounds (v + 2 ^ k - 1) (2 ^ k) (two_pow_pos k), two_pow_pos k),
  omega (arith, multiple_bounds (v + 2 ^ k - 1) (2 ^ k) (two_pow_pos k), two_pow_pos k),
)

-- `align_down` gives the greatest multiple of a power of two that is not above the value.
pub align_down_lem :
    (k v : ℕ)
    → k ≤ 63
    → v < 2 ^ 64
    → (align_down v (2 ^ k) % 2 ^ k ≡ 0)
      × (align_down v (2 ^ k) ≤ v)
      × (v < align_down v (2 ^ k) + 2 ^ k)
align_down_lem k v hk h = rw (align_down_div (64 - k) k v (omega arith) h) (
  mul-mod_left _ (2 ^ k),
  (multiple_bounds v (2 ^ k) (two_pow_pos k)).0,
  (multiple_bounds v (2 ^ k) (two_pow_pos k)).1,
)

products_close : (p q a : ℕ) → p * a ≤ q * a → q * a < p * a + a → q * a ≡ p * a
products_close p q a h l = elim (dec_le q p) [
  | yes le ↦ omega (arith, mul-le-mul_right {m = q} {n = p} a le)
  | no gt ↦ absurd (omega (arith, mul-le-mul_right {m = p + 1} {n = q} a (omega arith)))
]

multiples_close : (x y a : ℕ) → x % a ≡ 0 → y % a ≡ 0 → x ≤ y → y < x + a → y ≡ x
multiples_close x y a hx hy h l = omega (
  arith,
  div-add-mod' x a,
  div-add-mod' y a,
  products_close (x / a) (y / a) a (omega (arith, div-add-mod' x a, div-add-mod' y a))
      (omega (arith, div-add-mod' x a, div-add-mod' y a)),
)

-- `is_aligned` accepts exactly the values that `align_up` leaves alone.
pub is_aligned_iff :
    (k v : ℕ)
    → k ≤ 63
    → v + 2 ^ k ≤ 2 ^ 64
    → (is_aligned v (2 ^ k) ≡ true) ↔ (align_up v (2 ^ k) ≡ v)
unfolding is_aligned
is_aligned_iff k v hk h = (
  λ a.
      let up = align_up_lem k v hk h in
      multiples_close v (align_up v (2 ^ k)) (2 ^ k) ((==_iff (v % 2 ^ k) 0).0 a) up.0 up.1 up.2,
  λ e. (==_iff (v % 2 ^ k) 0).1 (ap (λ (t : ℕ). t % 2 ^ k) (sym e) ∙ (align_up_lem k v hk h).0),
)

-- At the page size, where the tactics compute.
pub align_up_page : (v : ℕ) → v + 4096 ≤ 2 ^ 64 → align_up v 4096 ≡ (v + 4095) / 4096 * 4096
align_up_page v h = align_up_div 52 12 v refl h ∙ omega arith

pub align_down_page : (v : ℕ) → v < 2 ^ 64 → align_down v 4096 ≡ v / 4096 * 4096
align_down_page v h = align_down_div 52 12 v refl h
