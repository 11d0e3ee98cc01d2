-- ===== src/Number.antt =====
-- kernel/include/types/number.h: `size_t` and the other unsigned types as numbers below 2 ^ w, with
-- every wrap-around written out. A load through a pointer reads bytes, lowest first.
mod Tests
pub mod Align
pub mod Endian
use octiron.Base.{
  ℕ, zero, suc, ◌+◌, ◌-◌, ◌*◌, ◌/◌, ◌%◌, ◌^◌, Bool, List, [], ◌∷◌, ltb, ◌==◌, if◌then◌else◌,
  bit_and, bit_or,
}
use mathlib.Core.List.{reverse}

abbrev pub u8 : ℕ → ℕ
u8 n = n % 2 ^ 8

abbrev pub u16 : ℕ → ℕ
u16 n = n % 2 ^ 16

abbrev pub u32 : ℕ → ℕ
u32 n = n % 2 ^ 32

abbrev pub u64 : ℕ → ℕ
u64 n = n % 2 ^ 64

-- `a - b` on `size_t`; `-` stops at 0, so the modulus comes first.
abbrev pub sub64 : ℕ → ℕ → ℕ
sub64 a b = u64 (a + 2 ^ 64 - b)

-- `~x` on `size_t`.
abbrev pub not64 : ℕ → ℕ
not64 x = 2 ^ 64 - 1 - x

infixl 75 ◌<<<◌ ◌>>>◌
abbrev pub ◌<<<◌ : ℕ → ℕ → ℕ
x <<< k = x * 2 ^ k

abbrev pub ◌>>>◌ : ℕ → ℕ → ℕ
x >>> k = x / 2 ^ k

unfoldable pub align_up : ℕ → ℕ → ℕ
align_up value alignment = bit_and (sub64 (u64 (value + alignment)) 1) (not64 (sub64 alignment 1))

unfoldable pub align_down : ℕ → ℕ → ℕ
align_down value alignment = bit_and value (not64 (sub64 alignment 1))

unfoldable pub is_aligned : ℕ → ℕ → Bool
is_aligned value alignment = value % alignment == 0

unfoldable pub num_min : ℕ → ℕ → ℕ
num_min lhs rhs = if ltb lhs rhs then lhs else rhs

unfoldable pub flip_endianness16 : ℕ → ℕ
flip_endianness16 num = u16 (bit_or (num >>> 8) (num <<< 8))

unfoldable pub flip_endianness32 : ℕ → ℕ
flip_endianness32 num =
    bit_or
      (bit_or (bit_or (bit_and (num >>> 24) 0x0000_00ff) (bit_and (num >>> 8) 0x0000_ff00))
        (bit_and (u32 (num <<< 8)) 0x00ff_0000))
      (bit_and (u32 (num <<< 24)) 0xff00_0000)

unfoldable pub flip_endianness64 : ℕ → ℕ
flip_endianness64 num =
    bit_or
      (bit_or
        (bit_or
          (bit_or
            (bit_or
              (bit_or
                (bit_or (bit_and (num >>> 56) 0x0000_0000_0000_00ff)
                  (bit_and (num >>> 40) 0x0000_0000_0000_ff00))
                (bit_and (num >>> 24) 0x0000_0000_00ff_0000))
              (bit_and (num >>> 8) 0x0000_0000_ff00_0000))
            (bit_and (u64 (num <<< 8)) 0x0000_00ff_0000_0000))
          (bit_and (u64 (num <<< 24)) 0x0000_ff00_0000_0000))
        (bit_and (u64 (num <<< 40)) 0x00ff_0000_0000_0000))
      (bit_and (u64 (num <<< 56)) 0xff00_0000_0000_0000)

-- The bytes of a number, lowest first: `src.val` seen as `src.bytes`, and back.
unfoldable pub bytes_of : ℕ → ℕ → List ℕ
bytes_of zero num = []
bytes_of (suc n) num = u8 num ∷ bytes_of n (num >>> 8)

unfoldable pub of_bytes : List ℕ → ℕ
of_bytes [] = 0
of_bytes (b ∷ bs) = b + 256 * of_bytes bs

unfoldable pub flip_endianness128 : ℕ → ℕ
unfolding bytes_of of_bytes
flip_endianness128 num = of_bytes (reverse (bytes_of 16 num))

-- Memory as seen through `u8` pointers.
abbrev pub Bytes : Type 0
Bytes = ℕ → ℕ

-- `n` bytes from address `p` on.
unfoldable pub read_bytes : ℕ → Bytes → ℕ → List ℕ
read_bytes zero m p = []
read_bytes (suc n) m p = m p ∷ read_bytes n m (p + 1)

-- `*(U*)(ptr)` on a little-endian machine.
unfoldable pub load : ℕ → Bytes → ℕ → ℕ
unfolding of_bytes read_bytes
load n m p = of_bytes (read_bytes n m p)

unfoldable pub read_big_endian32 : Bytes → ℕ → ℕ
unfolding load flip_endianness32
read_big_endian32 m ptr = flip_endianness32 (load 4 m ptr)

unfoldable pub read_big_endian64 : Bytes → ℕ → ℕ
unfolding load flip_endianness64
read_big_endian64 m ptr = flip_endianness64 (load 8 m ptr)

unfoldable pub read_big_endian128 : Bytes → ℕ → ℕ
unfolding load flip_endianness128
read_big_endian128 m ptr = flip_endianness128 (load 16 m ptr)
