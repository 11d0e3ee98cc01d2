-- ===== src/Number/Endian.antt =====
-- Byte order: what the flips and the big-endian reads give.
use octiron.Base.{
  ℕ, zero, suc, ◌+◌, ◌*◌, ◌/◌, ◌%◌, ◌^◌, ◌<◌, ◌≡◌, refl, ap, ◌∙◌, arith, bit_and, bit_or,
}
use octiron.Base.Bits.{bit_and_shifted, bit_and_mask, bit_or_fields, bit_or_comm}
use octiron.Number.{
  u32, u64, ◌<<<◌, ◌>>>◌, flip_endianness16, flip_endianness32, flip_endianness64, Bytes,
  read_big_endian32, read_big_endian64,
}

-- One byte under a shifted mask.
select : (k x : ℕ) → bit_and x (255 * 2 ^ k) ≡ x / 2 ^ k % 256 * 2 ^ k
select k x = bit_and_shifted k 255 x ∙ ap (λ (t : ℕ). t * 2 ^ k) (bit_and_mask 8 (x / 2 ^ k))

-- A field above what is there already.
above : (k lo q : ℕ) → lo < 2 ^ k → bit_or lo (q * 2 ^ k) ≡ lo + q * 2 ^ k
above k lo q h = bit_or_comm lo (q * 2 ^ k) ∙ bit_or_fields k q lo h ∙ omega arith

-- The bytes of a number, lowest first.
abbrev byte : ℕ → ℕ → ℕ
byte x k = x / 2 ^ (8 * k) % 256

flip_endianness16_sum : (x : ℕ) → x < 2 ^ 16 → flip_endianness16 x ≡ byte x 1 + byte x 0 * 2 ^ 8
unfolding flip_endianness16
flip_endianness16_sum x h = omega (arith, above 8 (x / 2 ^ 8) x (omega arith))

four_fields :
    (a b c d : ℕ)
    → a < 256
    → b < 256
    → c < 256
    → bit_or (bit_or (bit_or (a * 2 ^ 0) (b * 2 ^ 8)) (c * 2 ^ 16)) (d * 2 ^ 24)
      ≡ a + b * 2 ^ 8 + c * 2 ^ 16 + d * 2 ^ 24
four_fields a b c d ha hb hc =
    rw
      (
        above 8 (a * 2 ^ 0) b (omega arith),
        above 16 (a * 2 ^ 0 + b * 2 ^ 8) c (omega arith),
        above 24 (a * 2 ^ 0 + b * 2 ^ 8 + c * 2 ^ 16) d (omega arith),
      )
      (omega arith)

upper_fields :
    (lo e f g h : ℕ)
    → lo < 2 ^ 32
    → e < 256
    → f < 256
    → g < 256
    → bit_or (bit_or (bit_or (bit_or lo (e * 2 ^ 32)) (f * 2 ^ 40)) (g * 2 ^ 48)) (h * 2 ^ 56)
      ≡ lo + e * 2 ^ 32 + f * 2 ^ 40 + g * 2 ^ 48 + h * 2 ^ 56
upper_fields lo e f g h hlo he hf hg =
    rw
      (
        above 32 lo e hlo,
        above 40 (lo + e * 2 ^ 32) f (omega arith),
        above 48 (lo + e * 2 ^ 32 + f * 2 ^ 40) g (omega arith),
        above 56 (lo + e * 2 ^ 32 + f * 2 ^ 40 + g * 2 ^ 48) h (omega arith),
      )
      refl

flip_endianness32_sum :
    (x : ℕ)
    → x < 2 ^ 32
    → flip_endianness32 x ≡ byte x 3 + byte x 2 * 2 ^ 8 + byte x 1 * 2 ^ 16 + byte x 0 * 2 ^ 24
unfolding flip_endianness32
flip_endianness32_sum x h =
    rw
      (
        select 0 (x >>> 24),
        select 8 (x >>> 8),
        select 16 (u32 (x <<< 8)),
        select 24 (u32 (x <<< 24)),
        four_fields (x >>> 24 / 2 ^ 0 % 256) (x >>> 8 / 2 ^ 8 % 256) (u32 (x <<< 8) / 2 ^ 16 % 256)
            (u32 (x <<< 24) / 2 ^ 24 % 256) (omega arith) (omega arith) (omega arith),
      )
      (omega arith)

flip_endianness64_sum :
    (x : ℕ)
    → x < 2 ^ 64
    → flip_endianness64 x
      ≡ byte x 7
        + byte x 6 * 2 ^ 8
        + byte x 5 * 2 ^ 16
        + byte x 4 * 2 ^ 24
        + byte x 3 * 2 ^ 32
        + byte x 2 * 2 ^ 40
        + byte x 1 * 2 ^ 48
        + byte x 0 * 2 ^ 56
unfolding flip_endianness64
flip_endianness64_sum x h =
    rw
      (
        select 0 (x >>> 56),
        select 8 (x >>> 40),
        select 16 (x >>> 24),
        select 24 (x >>> 8),
        select 32 (u64 (x <<< 8)),
        select 40 (u64 (x <<< 24)),
        select 48 (u64 (x <<< 40)),
        select 56 (u64 (x <<< 56)),
        four_fields (x >>> 56 / 2 ^ 0 % 256) (x >>> 40 / 2 ^ 8 % 256) (x >>> 24 / 2 ^ 16 % 256)
            (x >>> 8 / 2 ^ 24 % 256) (omega arith) (omega arith) (omega arith),
        upper_fields
            (x >>> 56 / 2 ^ 0 % 256
              + x >>> 40 / 2 ^ 8 % 256 * 2 ^ 8
              + x >>> 24 / 2 ^ 16 % 256 * 2 ^ 16
              + x >>> 8 / 2 ^ 24 % 256 * 2 ^ 24)
            (u64 (x <<< 8) / 2 ^ 32 % 256) (u64 (x <<< 24) / 2 ^ 40 % 256)
            (u64 (x <<< 40) / 2 ^ 48 % 256) (u64 (x <<< 56) / 2 ^ 56 % 256) (omega arith)
            (omega arith) (omega arith) (omega arith),
      )
      (omega arith)

flip16_flip16 : (x : ℕ) → x < 2 ^ 16 → flip_endianness16 (flip_endianness16 x) ≡ x
flip16_flip16 x h =
    rw (flip_endianness16_sum x h)
      (flip_endianness16_sum (byte x 1 + byte x 0 * 2 ^ 8) (omega arith) ∙ omega arith)

flip32_flip32 : (x : ℕ) → x < 2 ^ 32 → flip_endianness32 (flip_endianness32 x) ≡ x
flip32_flip32 x h =
    rw (flip_endianness32_sum x h) (flip_endianness32_sum _ (omega arith) ∙ omega arith)

flip64_flip64 : (x : ℕ) → x < 2 ^ 64 → flip_endianness64 (flip_endianness64 x) ≡ x
flip64_flip64 x h =
    rw (flip_endianness64_sum x h) (flip_endianness64_sum _ (omega arith) ∙ omega arith)

-- Each flip that is written by shifts undoes itself on numbers of its width.
pub flip_endianness_involutive :
    (x y z : ℕ)
    → x < 2 ^ 16
    → y < 2 ^ 32
    → z < 2 ^ 64
    → (flip_endianness16 (flip_endianness16 x) ≡ x)
      × (flip_endianness32 (flip_endianness32 y) ≡ y)
      × (flip_endianness64 (flip_endianness64 z) ≡ z)
flip_endianness_involutive x y z hx hy hz =
    (flip16_flip16 x hx, flip32_flip32 y hy, flip64_flip64 z hz)

-- Memory that holds bytes.
abbrev pub IsBytes : Bytes → Type 0
IsBytes m = (a : ℕ) → m a < 256

-- The number that `n` bytes from `p` on spell, highest byte first.
unfoldable pub big_endian : ℕ → Bytes → ℕ → ℕ
big_endian zero m p = 0
big_endian (suc n) m p = m p * 256 ^ n + big_endian n m (p + 1)

flip32_bytes :
    (a b c d : ℕ)
    → a < 256
    → b < 256
    → c < 256
    → d < 256
    → flip_endianness32 (a + 256 * (b + 256 * (c + 256 * (d + 256 * 0))))
      ≡ a * 2 ^ 24 + (b * 2 ^ 16 + (c * 2 ^ 8 + (d * 1 + 0)))
flip32_bytes a b c d ha hb hc hd = flip_endianness32_sum _ (omega arith) ∙ omega arith

flip64_bytes :
    (a b c d e f g h : ℕ)
    → (a < 256) × (b < 256) × (c < 256) × (d < 256)
    → (e < 256) × (f < 256) × (g < 256) × (h < 256)
    → flip_endianness64 (
        a
        + 256
          * (b + 256 * (c + 256 * (d + 256 * (e + 256 * (f + 256 * (g + 256 * (h + 256 * 0))))))))
      ≡ a * 2 ^ 56
        + (b * 2 ^ 48
            + (c * 2 ^ 40 + (d * 2 ^ 32 + (e * 2 ^ 24 + (f * 2 ^ 16 + (g * 2 ^ 8 + (h * 1 + 0)))))))
flip64_bytes a b c d e f g h lo hi = flip_endianness64_sum _ (omega arith) ∙ omega arith

-- `read_big_endian` of 32 and of 64 bits spells the bytes at the pointer highest first.
pub read_big_endian_lem :
    (m : Bytes) (p : ℕ)
    → IsBytes m
    → (read_big_endian32 m p ≡ big_endian 4 m p) × (read_big_endian64 m p ≡ big_endian 8 m p)
unfolding read_big_endian32 read_big_endian64 big_endian
read_big_endian_lem m p h = (
  flip32_bytes _ _ _ _ (h p) (h (p + 1)) (h (p + 1 + 1)) (h (p + 1 + 1 + 1)),
  flip64_bytes _ _ _ _ _ _ _ _ (h p, h (p + 1), h (p + 1 + 1), h (p + 1 + 1 + 1))
      (
        h (p + 1 + 1 + 1 + 1),
        h (p + 1 + 1 + 1 + 1 + 1),
        h (p + 1 + 1 + 1 + 1 + 1 + 1),
        h (p + 1 + 1 + 1 + 1 + 1 + 1 + 1),
      ),
)
