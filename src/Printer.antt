-- ===== src/Printer.antt =====
-- kernel/include/fmt/printer.h: what the printers hand to their output function, as a list of
-- character codes. Zero goes to the global `detail::put_char` in the printer of unsigned numbers.
mod Tests
pub mod Laws
use octiron.Base.{
  ℕ, zero, suc, ◌+◌, ◌-◌, ◌/◌, ◌%◌, ◌^◌, ltb, ◌==◌, if◌then◌else◌, Run, done, fault, halt, ◌>>=◌,
  List, [], ◌∷◌, ◌++◌, map,
}
use octiron.Base.Int.{ℤ, pos, negsuc}
use octiron.Number.{Bytes}
use octiron.View.{View, at}

-- A character sent through the function that was handed in, or through the global one.
pub data Sent : Type 0 where
  by_fn by_global : ℕ → Sent

-- `digits[d]` of "0123456789ABCDEF".
abbrev pub digit : ℕ → ℕ
digit d = if ltb d 10 then 48 + d else 55 + d

-- The size of `buffer`.
abbrev pub buffer_size : ℕ
buffer_size = 65

-- The loop over the digits, with the places left in the buffer. The buffer is listed from its last
-- character back, which is the order in which it is printed.
unfoldable pub write_digits : (left base num : ℕ) → List ℕ → Run (List ℕ)
write_digits zero base num buffer = if num == 0 then done buffer else fault
write_digits (suc left) base num buffer =
    let rest = write_digits left base (num / base) (digit (num % base) ∷ buffer) in
    if num == 0 then done buffer else rest

unfoldable pub print_unsigned : ℕ → Run (List Sent)
unfolding write_digits
print_unsigned value =
    if value == 0
    then done (by_global 48 ∷ [])
    else (do chars ← write_digits buffer_size 10 value []; done (map by_fn chars))

-- For `i64`: the negation of the least number overflows.
unfoldable pub print_signed : ℤ → Run (List Sent)
unfolding print_unsigned
print_signed (pos n) = print_unsigned n
print_signed (negsuc n) =
    if suc n == 2 ^ 63 then fault else (do sent ← print_unsigned (suc n); done (by_fn 45 ∷ sent))

-- "0x" and the digits.
unfoldable pub print_hex : ℕ → Run (List Sent)
unfolding write_digits
print_hex value = if value == 0 then done (by_fn 48 ∷ by_fn 120 ∷ by_fn 48 ∷ []) else (do
  chars ← write_digits buffer_size 16 value []
  done (by_fn 48 ∷ by_fn 120 ∷ map by_fn chars))

unfoldable pub print_pointer : ℕ → Run (List Sent)
unfolding print_hex
print_pointer ptr = print_hex ptr

-- A text up to its zero byte; `fuel` bounds the rounds.
unfoldable pub print_text : (fuel str : ℕ) → Bytes → Run (List Sent)
print_text zero str m = halt
print_text (suc fuel) str m =
    let rest = print_text fuel (str + 1) m in
    if m str == 0 then done [] else (do sent ← rest; done (by_fn (m str) ∷ sent))

-- The loop over a view from index `i` on, with the rounds left.
unfoldable pub print_view_loop : (left i : ℕ) → View → Bytes → List Sent
unfolding at
print_view_loop zero i sv m = []
print_view_loop (suc left) i sv m = by_fn (at sv i m) ∷ print_view_loop left (i + 1) sv m

unfoldable pub print_str_view : View → Bytes → List Sent
unfolding print_view_loop
print_str_view sv m = print_view_loop sv.size 0 sv m
