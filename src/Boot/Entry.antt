-- ===== src/Boot/Entry.antt =====
-- kernel/src/kernel_entry.cpp: `kernel_cxx_entry` up to the drawing on the framebuffer. The memory
-- before, the device tree's blob and the file's variables of the parser are parameters.
use octiron.Base.{ℕ, ◌==◌, Run, done, ◌>>=◌, ◌>>◌}
use octiron.Number.{Bytes}
use octiron.Words.{Words}
use octiron.Errors.{is_ok}
use octiron.Slab.{assert}
use octiron.View.{View}
use octiron.DeviceTree.{DeviceTree}
use octiron.DeviceTree.Rewrite.{parse_from_blob}
use octiron.Boot.{set_up_memory}
use octiron.Boot.Platform.{Responses, PlatformInfo, parse_platform_info, entries}

-- `LIMINE_PAGING_MODE_RISCV_SV39`.
abbrev pub paging_mode_riscv_sv39 : ℕ
paging_mode_riscv_sv39 = 0

-- The platform and the device tree that the kernel goes on with.
unfoldable pub kernel_cxx_entry :
    (fuel text_fuel block_buf : ℕ)
    → View
    → Bytes
    → Responses
    → Words
    → DeviceTree
    → Run (PlatformInfo × DeviceTree)
kernel_cxx_entry fuel text_fuel block_buf root_name blob r m d = do
  pinfo ← parse_platform_info r
  assert (pinfo.mode == paging_mode_riscv_sv39)
  s ← set_up_memory block_buf (entries pinfo.memmap_count pinfo.memmap) m
  (err, d') ←
      parse_from_blob pinfo.hhdm_base text_fuel blob fuel root_name pinfo.device_tree_blob
        (record d { pmm = s })
  assert (is_ok err)
  done (pinfo, d')
