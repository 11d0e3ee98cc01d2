-- ===== src/Boot.antt =====
-- kernel/src/kernel_entry.cpp: how the start-up code fills the physical memory manager from the boot
-- loader's memory map. The map is a parameter: the entries in order, with their types.
mod Tests
mod Started
pub mod Filled
pub mod Platform
pub mod Entry
pub mod Up
pub mod Complete
use octiron.Base.{ℕ, Bool, true, false, ◌==◌, Run, done, halt, ◌>>=◌, List, [], ◌∷◌}
use octiron.Errors.{is_err}
use octiron.Words.{Words}
use octiron.Pmm.{Policy, Pmm, initialize, add_region, start}

-- `limine_memmap_entry`.
pub record MemmapEntry : Type 0 where
  pub base : ℕ
  pub length : ℕ
  pub type : ℕ

-- `LIMINE_MEMMAP_USABLE`.
abbrev pub memmap_usable : ℕ
memmap_usable = 0

-- The loop over the entries; `panic` never returns.
unfoldable pub add_usable : List MemmapEntry → Pmm → Run Pmm
add_usable [] s = done s
add_usable (e ∷ es) s = elim (e.type == memmap_usable) [
  | true ↦ (do
    (err, s') ← add_region e.base e.length s
    elim (is_err err) [ true ↦ halt | false ↦ add_usable es s' ])
  | false ↦ add_usable es s
]

-- The manager after start-up.
unfoldable pub set_up_memory : (block_buf : ℕ) → List MemmapEntry → Words → Run Pmm
unfolding add_usable
set_up_memory block_buf memmap m = do
  s ← initialize block_buf Policy.first_fit (start m)
  add_usable memmap s
