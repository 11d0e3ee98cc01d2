-- ===== src/Boot/Complete.antt =====
-- `kernel_cxx_entry` from its parts: the boot loader's responses, the memory, and the device tree.
use octiron.Base.{ℕ, true, some}
use octiron.Words.{Words}
use octiron.View.{View}
use octiron.DeviceTree.{DeviceTree}
use octiron.DeviceTree.Grants.{Grants}
use octiron.Boot.Platform.{FramebufferResponse, MemmapResponse, Responses, PlatformInfo}

-- All responses, in Sv39 mode.
abbrev pub all_responses :
    FramebufferResponse → MemmapResponse → (device_tree_blob hhdm_base : ℕ) → Responses
all_responses f mm dtb hhdm_base = record {
  base_revision_supported = true;
  framebuffer = some f;
  paging_mode = some 0;
  memmap = some mm;
  dtb = some dtb;
  hhdm = some hhdm_base;
}

abbrev pub platform_of :
    FramebufferResponse → MemmapResponse → (device_tree_blob hhdm_base : ℕ) → PlatformInfo
platform_of f mm dtb hhdm_base = record {
  framebuffer_count = f.framebuffer_count;
  framebuffers = f.framebuffers;
  mode = 0;
  memmap_count = mm.entry_count;
  memmap = mm.first_entry;
  device_tree_blob = dtb;
  hhdm_base = hhdm_base;
}
