-- ===== src/Boot/Platform.antt =====
-- kernel/src/limine/platform_info.cpp: `parse_platform_info`. What the boot loader answers is a
-- parameter: each request's response, if it gave one.
use octiron.Base.{
  ℕ, zero, suc, ◌+◌, Bool, Option, none, some, Run, done, halt, ◌>>=◌, ◌>>◌, List, [], ◌∷◌,
}
use octiron.Slab.{assert}
use octiron.Boot.{MemmapEntry}

-- `limine_framebuffer_response`; the buffers are an address.
pub record FramebufferResponse : Type 0 where
  pub framebuffer_count : ℕ
  pub framebuffers : ℕ

-- `limine_memmap_response`, with what stands one behind the other from the first entry on.
pub record MemmapResponse : Type 0 where
  pub entry_count : ℕ
  pub first_entry : ℕ → MemmapEntry

-- The requests' `response` fields, and `LIMINE_BASE_REVISION_SUPPORTED`.
pub record Responses : Type 0 where
  pub base_revision_supported : Bool
  pub framebuffer : Option FramebufferResponse
  pub paging_mode : Option ℕ
  pub memmap : Option MemmapResponse
  pub dtb : Option ℕ
  pub hhdm : Option ℕ

pub record PlatformInfo : Type 0 where
  pub framebuffer_count : ℕ
  pub framebuffers : ℕ
  pub mode : ℕ
  pub memmap_count : ℕ
  pub memmap : ℕ → MemmapEntry
  pub device_tree_blob : ℕ
  pub hhdm_base : ℕ

-- `assert(response != nullptr)`, and the response.
abbrev pub answered : {A : Type 0} → Option A → Run A
answered none = halt
answered (some a) = done a

unfoldable pub parse_platform_info : Responses → Run PlatformInfo
parse_platform_info r = do
  assert r.base_revision_supported
  framebuffer ← answered r.framebuffer
  mode ← answered r.paging_mode
  memmap ← answered r.memmap
  dtb ← answered r.dtb
  hhdm ← answered r.hhdm
  done (record {
    framebuffer_count = framebuffer.framebuffer_count;
    framebuffers = framebuffer.framebuffers;
    mode = mode;
    memmap_count = memmap.entry_count;
    memmap = memmap.first_entry;
    device_tree_blob = dtb;
    hhdm_base = hhdm;
  })

-- The entries that a loop over `memmap_count` of them meets.
abbrev pub entries : ℕ → (ℕ → MemmapEntry) → List MemmapEntry
entries zero memmap = []
entries (suc n) memmap = memmap 0 ∷ entries n (λ i. memmap (i + 1))
