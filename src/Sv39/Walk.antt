-- ===== src/Sv39/Walk.antt =====
-- The walk after a mapping whose intermediate tables were there.
use mathlib.Core.Path.{ap₂}
use octiron.Base.{
  ℕ, ◌+◌, ◌*◌, ◌/◌, ◌%◌, ◌^◌, ◌<◌, ◌≡◌, ◌≢◌, ◌∙◌, sym, true, false, arith, bit_or, bit_and, done,
  none,
}
use octiron.Base.Bits.{bit_or-mod, bit_or-halves, bit_or-zero, bit_and_shifted}
use octiron.Number.{is_aligned}
use octiron.Errors.{ErrorCode, of_code}
use octiron.Words.{Words, write, write_same, write_other}
use octiron.Pmm.{Pmm}
use octiron.Sv39.{
  table_entry, get_address, is_valid, is_leaf, tef_valid, entry_at, ensure_table, map_small_page,
  virt_to_phys,
}
use octiron.Sv39.Entry.{table_entry_fields, is_valid_lem, is_leaf-true}

-- The addresses of the three entries that the walk reads.
abbrev pub l2_at : (root va : ℕ) → ℕ
l2_at root va = entry_at root 2 va

abbrev pub l1_at : (root va : ℕ) → Words → ℕ
l1_at root va m = entry_at (get_address (m (l2_at root va))) 1 va

abbrev pub l0_at : (root va : ℕ) → Words → ℕ
l0_at root va m = entry_at (get_address (m (l1_at root va m))) 0 va

-- The tables on the way to the last level are there, and its entry is free and stands in neither of
-- the two entries that lead to it.
pub record HasTables (root va : ℕ) (m : Words) : Type 0 where
  pub valid_l2 : is_valid (m (l2_at root va)) ≡ true
  pub inner_l2 : is_leaf (m (l2_at root va)) ≡ false
  pub valid_l1 : is_valid (m (l1_at root va m)) ≡ true
  pub inner_l1 : is_leaf (m (l1_at root va m)) ≡ false
  pub free_l0 : is_valid (m (l0_at root va m)) ≡ false
  pub apart_l2 : l2_at root va ≢ l0_at root va m
  pub apart_l1 : l1_at root va m ≢ l0_at root va m

pub ensure_table_there :
    (slot : ℕ) (s : Pmm) → is_valid (s.mem slot) ≡ true → ensure_table slot s ≡ done (none, s)
unfolding ensure_table
ensure_table_there slot s e = rw e

value_of : {a b : ℕ} → done a ≡ done b → a ≡ b
value_of e = cc

with_valid : (flags : ℕ) → bit_or flags 1 ≡ flags / 2 * 2 + 1
with_valid flags = omega (arith, bit_or-halves flags 1, bit_or-zero (flags / 2))

module _ (root va pa flags : ℕ) (s : Pmm) (t : HasTables root va s.mem) where
  -- Memory after the mapping.
  pub mapped : Words
  mapped = write s.mem (l0_at root va s.mem) (table_entry pa (bit_or flags tef_valid))

  map_runs :
      va % 8 ≡ 0
      → pa % 8 ≡ 0
      → map_small_page root va pa flags s
        ≡ done (of_code ErrorCode.success, record s { mem = mapped })
  unfolding map_small_page mapped is_aligned
  map_runs a b =
      rw
        (
          ensure_table_there (l2_at root va) s t.valid_l2,
          ensure_table_there (l1_at root va s.mem) s t.valid_l1,
          t.free_l0,
        )
        (ground (arith, a, b))

  walk_runs :
      pa % 4096 ≡ 0
      → pa < 2 ^ 56
      → flags < 1024
      → flags / 2 % 8 ≢ 0
      → virt_to_phys root va mapped ≡ done (bit_or pa (bit_and va 4096))
  unfolding virt_to_phys mapped
  walk_runs a h l leaf = rw (
    write_other s.mem l0 e (l2_at root va) t.apart_l2,
    t.valid_l2,
    t.inner_l2,
    write_other s.mem l0 e (l1_at root va s.mem) t.apart_l1,
    t.valid_l1,
    t.inner_l1,
    write_same s.mem l0 e,
    good,
    leafy,
    fields.0,
  )
    where
      l0 : ℕ
      l0 = l0_at root va s.mem

      e : ℕ
      e = table_entry pa (bit_or flags tef_valid)

      fields : (get_address e ≡ pa) × (e % 1024 ≡ bit_or flags 1)
      fields = table_entry_fields pa (bit_or flags 1) a h (omega (arith, with_valid flags))

      good : is_valid e ≡ true
      good = ground (arith, is_valid_lem e, fields.1, with_valid flags)

      leafy : is_leaf e ≡ true
      leafy = is_leaf-true e (omega (arith, fields.1, with_valid flags))

  -- Mapping a page whose tables are there and whose entry is free, at a virtual address with an
  -- alignment of 8, at a page address and with flags that fit an entry and make it a leaf, writes the
  -- one entry, and the walk of the new tables then finds it. What the walk returns is the page's
  -- address with bit 12 of the virtual address or-ed in.
  pub map_then_walk :
      va % 8 ≡ 0
      → pa % 4096 ≡ 0
      → pa < 2 ^ 56
      → flags < 1024
      → flags / 2 % 8 ≢ 0
      → (map_small_page root va pa flags s
          ≡ done (of_code ErrorCode.success, record s { mem = mapped }))
        × (virt_to_phys root va mapped ≡ done (bit_or pa (bit_and va 4096)))
  map_then_walk v a h l leaf = (map_runs v (omega arith), walk_runs a h l leaf)

  -- So the offset in the page is lost: for a virtual address inside a mapped page the walk does not
  -- return the physical address that it stands for.
  pub walk_drops_offset :
      pa % 4096 ≡ 0
      → pa < 2 ^ 56
      → flags < 1024
      → flags / 2 % 8 ≢ 0
      → va % 4096 ≢ 0
      → virt_to_phys root va mapped ≢ done (pa + va % 4096)
  walk_drops_offset a h l leaf inside e =
      let same : bit_or pa (bit_and va 4096) ≡ pa + va % 4096 =
        value_of (sym (walk_runs a h l leaf) ∙ e) in
      inside (omega (arith, a, same, page_of_or, bit_and_shifted 12 1 va))
    where
      page_of_or : bit_or pa (bit_and va 4096) % 4096 ≡ 0
      page_of_or =
          bit_or-mod 12 pa (bit_and va 4096)
          ∙ ap₂ bit_or {v = 0} a (omega (arith, bit_and_shifted 12 1 va))
