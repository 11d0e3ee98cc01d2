-- ===== src/Boot/Up.antt =====
-- What holds when start-up comes through.
use octiron.Base.{ℕ, ◌≡◌, true, some, done}
use octiron.Number.{Bytes}
use octiron.Words.{Words}
use octiron.View.{View}
use octiron.Pmm.{Pmm}
use octiron.DeviceTree.{DeviceTree}
use octiron.Boot.{set_up_memory}
use octiron.Boot.Platform.{FramebufferResponse, MemmapResponse, Responses, PlatformInfo, entries}
use octiron.Boot.Entry.{paging_mode_riscv_sv39}

-- Each request has its response, and the platform is made of them.
pub record Answered (r : Responses) (info : PlatformInfo) : Type 0 where
  pub framebuffer : FramebufferResponse
  pub memmap : MemmapResponse
  pub supported : r.base_revision_supported ≡ true
  pub framebuffers : r.framebuffer ≡ some framebuffer
  pub mode : r.paging_mode ≡ some info.mode
  pub memory : r.memmap ≡ some memmap
  pub dtb : r.dtb ≡ some info.device_tree_blob
  pub hhdm : r.hhdm ≡ some info.hhdm_base
  pub buffer_count : info.framebuffer_count ≡ framebuffer.framebuffer_count
  pub buffers : info.framebuffers ≡ framebuffer.framebuffers
  pub count : info.memmap_count ≡ memmap.entry_count
  pub first : info.memmap ≡ memmap.first_entry

module _ (fuel text_fuel block_buf : ℕ) (root_name : View) (blob : Bytes) (r : Responses)
    (m : Words) (d : DeviceTree) where
  record IsUp (out : PlatformInfo × DeviceTree) : Type 0 where
    answered : Answered r out.0
    sv39 : out.0.mode ≡ paging_mode_riscv_sv39
    filled :
        (s : Pmm) × (set_up_memory block_buf (entries out.0.memmap_count out.0.memmap) m ≡ done s)
    initialized : out.1.initialized ≡ true
