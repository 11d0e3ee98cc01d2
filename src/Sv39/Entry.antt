-- ===== src/Sv39/Entry.antt =====
-- What an entry holds.
use mathlib.Core.Path.{ap₂}
use octiron.Base.{
  ℕ, ◌+◌, ◌*◌, ◌/◌, ◌%◌, ◌^◌, ◌<◌, ◌≡◌, ◌≢◌, ◌∙◌, ap, true, false, ◌==◌, arith, bit_or,
}
use octiron.Base.Bits.{bit_or_fields, bit_or-mod, bit_and_shifted, bit_and_mask}
use octiron.Sv39.{table_entry, get_address, is_valid, is_leaf}

table_entry_sum :
    (pa flags : ℕ) → pa % 4096 ≡ 0 → flags < 1024 → table_entry pa flags ≡ pa / 4096 * 1024 + flags
unfolding table_entry
table_entry_sum pa flags a h =
    ap (λ x. bit_or x flags) {x = pa / 4} {y = pa / 4096 * 2 ^ 10} (omega arith)
    ∙ bit_or_fields 10 (pa / 4096) flags h

-- For a page address below 2 ^ 56 and ten flag bits, the entry gives both back.
pub table_entry_fields :
    (pa flags : ℕ)
    → pa % 4096 ≡ 0
    → pa < 2 ^ 56
    → flags < 1024
    → (get_address (table_entry pa flags) ≡ pa) × (table_entry pa flags % 1024 ≡ flags)
unfolding get_address
table_entry_fields pa flags a h l =
    (omega (arith, table_entry_sum pa flags a l), omega (arith, table_entry_sum pa flags a l))

-- For any address, the flag bits of the entry are the given ones with bits 2 to 11 of the address
-- or-ed over them. `map_small_page` asks for an alignment of 8 only, so these bits may be set.
pub table_entry_spills :
    (pa flags : ℕ) → flags < 1024 → table_entry pa flags % 1024 ≡ bit_or (pa % 4096 / 4) flags
unfolding table_entry
table_entry_spills pa flags h =
    bit_or-mod 10 (pa / 4) flags ∙ ap₂ bit_or (omega arith) (omega (arith, h))

-- The tests read the four low bits.
pub is_valid_lem : (e : ℕ) → is_valid e ≡ (e % 2 == 1)
unfolding is_valid
is_valid_lem e = ground (arith, bit_and_mask 1 e)

pub is_leaf-false : (e : ℕ) → e / 2 % 8 ≡ 0 → is_leaf e ≡ false
unfolding is_leaf
is_leaf-false e h = ground (
  arith,
  bit_and_shifted 1 1 e,
  bit_and_shifted 2 1 e,
  bit_and_shifted 3 1 e,
  bit_and_mask 1 (e / 2 ^ 1),
  bit_and_mask 1 (e / 2 ^ 2),
  bit_and_mask 1 (e / 2 ^ 3),
)

pub is_leaf-true : (e : ℕ) → e / 2 % 8 ≢ 0 → is_leaf e ≡ true
unfolding is_leaf
is_leaf-true e h = ground (
  arith,
  bit_and_shifted 1 1 e,
  bit_and_shifted 2 1 e,
  bit_and_shifted 3 1 e,
  bit_and_mask 1 (e / 2 ^ 1),
  bit_and_mask 1 (e / 2 ^ 2),
  bit_and_mask 1 (e / 2 ^ 3),
)
