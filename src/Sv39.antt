-- ===== src/Sv39.antt =====
-- kernel/include/riscv/sv39.h and kernel/src/riscv/sv39.cpp: page table entries, the mapping of one
-- page and the walk. A page table at address t has entry i in the word t + 8 * i. The file does not
-- compile as it stands because of `current_page_table`, which is not modelled.
mod Tests
pub mod Entry
pub mod Walk
pub mod Map
use octiron.Base.{
  ℕ, zero, suc, ◌+◌, ◌*◌, Bool, true, false, ◌&&◌, ◌||◌, not, ◌==◌, if◌then◌else◌, Run, done, fault,
  ◌>>=◌, Option, none, some, bit_and, bit_or, ◌^◌, ◌-◌,
}
use octiron.Number.{◌<<<◌, ◌>>>◌, u64, is_aligned}
use octiron.Errors.{Error, ErrorCode, of_code, is_err, push}
use octiron.Words.{Words, write}
use octiron.Pmm.{Pmm, page_size}
use octiron.Pmm.Take.{alloc}

abbrev pub tef_valid : ℕ
tef_valid = 0b00000001

abbrev pub tef_read : ℕ
tef_read = 0b00000010

abbrev pub tef_write : ℕ
tef_write = 0b00000100

abbrev pub tef_execute : ℕ
tef_execute = 0b00001000

-- `m_entry`.
abbrev pub TableEntry : Type 0
TableEntry = ℕ

unfoldable pub table_entry : (page_address flags : ℕ) → TableEntry
table_entry page_address flags = bit_or (page_address >>> 2) flags

unfoldable pub get_address : TableEntry → ℕ
get_address e = u64 ((e >>> 10) <<< 12)

unfoldable pub get_megapage_addr : TableEntry → ℕ
get_megapage_addr e = u64 ((e >>> 10) <<< 21)

unfoldable pub get_gigapage_addr : TableEntry → ℕ
get_gigapage_addr e = u64 ((e >>> 10) <<< 30)

unfoldable pub is_valid : TableEntry → Bool
is_valid e = not (bit_and e tef_valid == 0)

unfoldable pub is_readable : TableEntry → Bool
is_readable e = not (bit_and e tef_read == 0)

unfoldable pub is_writable : TableEntry → Bool
is_writable e = not (bit_and e tef_write == 0)

unfoldable pub is_executable : TableEntry → Bool
is_executable e = not (bit_and e tef_execute == 0)

unfoldable pub is_leaf : TableEntry → Bool
unfolding is_readable is_writable is_executable
is_leaf e = is_readable e || is_writable e || is_executable e

-- `vpn[level]`, and the address of the entry for it in the table at `table`.
unfoldable pub vpn : (level va : ℕ) → ℕ
vpn level va = bit_and (va >>> (12 + 9 * level)) 0x1ff

unfoldable pub entry_at : (table level va : ℕ) → ℕ
unfolding vpn
entry_at table level va = table + 8 * vpn level va

-- `alignof(page_table)`: that of its entries, since no `alignas` raises it.
abbrev pub page_table_align : ℕ
page_table_align = 8

-- One level above the last: an entry that is not valid gets a new table. The result is the error
-- to return, if any, and the new state.
unfoldable pub ensure_table : (slot : ℕ) → Pmm → Run (Option Error × Pmm)
ensure_table slot s = if is_valid (s.mem slot) then done (none, s) else (do
  (err, ret, s') ← alloc page_size false s
  elim (is_err err) [
    | true ↦ done (some (push err ErrorCode.paging_alloc_failed), s')
    | false ↦ elim ret [
      | none ↦ fault
      | some page ↦ done (none, record s' { mem = write s'.mem slot (table_entry page tef_valid) })
    ]
  ])

unfoldable pub map_leaf : (slot pa flags : ℕ) → Pmm → Run (Error × Pmm)
map_leaf slot pa flags s =
    if is_valid (s.mem slot)
    then done (of_code ErrorCode.paging_map_exists, s)
    else done (
      of_code ErrorCode.success,
      record s { mem = write s.mem slot (table_entry pa (bit_or flags tef_valid)) },
    )

unfoldable pub map_small_page : (root va pa flags : ℕ) → Pmm → Run (Error × Pmm)
unfolding map_leaf
map_small_page root va pa flags s =
    if not (is_aligned va page_table_align) || not (is_aligned pa page_table_align)
    then done (of_code ErrorCode.paging_unaligned_addr, s)
    else (do
      let l2 = entry_at root 2 va
      (failed, s₁) ← ensure_table l2 s
      elim failed [
        | some err ↦ done (err, s₁)
        | none ↦
            let l1 = entry_at (get_address (s₁.mem l2)) 1 va in
            ensure_table l1 s₁ >>= λ (failed', s₂). elim failed' [
              | some err ↦ done (err, s₂)
              | none ↦ map_leaf (entry_at (get_address (s₂.mem l1)) 0 va) pa flags s₂
            ]
      ])

-- The address that a leaf at a level stands for, before the page offset is or-ed in. At level 1
-- the source has a logical `||`, whose value is 0 or 1.
unfoldable pub leaf_address : (level : ℕ) → TableEntry → (va : ℕ) → ℕ
leaf_address zero e va = get_address e
leaf_address (suc zero) e va = if get_megapage_addr e == 0 && (vpn 0 va <<< 12) == 0 then 0 else 1
leaf_address (suc (suc level)) e va =
    bit_or (bit_or (get_gigapage_addr e) (vpn 1 va <<< 21)) (vpn 0 va <<< 12)

-- `static_cast<paddr_t>(-1)`.
abbrev pub not_mapped : ℕ
not_mapped = 2 ^ 64 - 1

-- The loop from `level` down, which runs into `__builtin_unreachable` behind level 0.
unfoldable pub walk : (level table va : ℕ) → Words → Run ℕ
unfolding leaf_address
walk zero table va m =
    let e = m (entry_at table 0 va) in
    if not (is_valid e)
    then done not_mapped
    else if is_leaf e
    then done (bit_or (leaf_address 0 e va) (bit_and va page_size))
    else fault
walk (suc level) table va m =
    let e = m (entry_at table (suc level) va) in
    let below = walk level (get_address e) va m in
    if not (is_valid e)
    then done not_mapped
    else if is_leaf e
    then done (bit_or (leaf_address (suc level) e va) (bit_and va page_size))
    else below

unfoldable pub virt_to_phys : (root va : ℕ) → Words → Run ℕ
unfolding walk
virt_to_phys root va m = walk 2 root va m
