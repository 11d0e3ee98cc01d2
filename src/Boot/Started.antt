-- ===== src/Boot/Started.antt =====
-- Start-up on a small platform: two usable entries, and a device tree of one node.
use octiron.Base.{ℕ, true, false, none, some, Run, done, fault, halt, ◌==◌, if◌then◌else◌}
use octiron.Number.{Bytes}
use octiron.Words.{Words}
use octiron.View.{view}
use octiron.Pmm.{Pmm, start}
use octiron.Stack.{empty}
use octiron.DeviceTree.{Data, DeviceTree}
use octiron.Boot.{MemmapEntry}
use octiron.Boot.Platform.{Responses, PlatformInfo}
use octiron.Boot.Entry.{kernel_cxx_entry}

abbrev first_entry : ℕ → MemmapEntry
first_entry i =
    if i == 0
    then record { base = 0x100001; length = 0x6000; type = 0 }
    else record { base = 0x200000; length = 0x8000; type = 0 }

abbrev responses : Responses
responses = record {
  base_revision_supported = true;
  framebuffer = some (record { framebuffer_count = 1; framebuffers = 0x5000 });
  paging_mode = some 0;
  memmap = some (record { entry_count = 2; first_entry = first_entry });
  dtb = some 0x400;
  hhdm = some 0x1000000;
}

-- The header with its offsets, then the reservations at 40 and the structure block at 64.
abbrev blob : Bytes
blob p =
    if p == 0x400
    then 0xD0
    else if p == 0x401
    then 0x0D
    else if p == 0x402
    then 0xFE
    else if p == 0x403
    then 0xED
    else if p == 0x40B
    then 64
    else if p == 0x413
    then 40
    else if p == 0x443
    then 1
    else if p == 0x44B
    then 2
    else if p == 0x44F
    then 9
    else 0

abbrev zeros : Words
zeros p = 0

-- The parser's variables before start-up.
abbrev untouched : DeviceTree
untouched = record {
  pmm = start zeros;
  reserved_stack = empty;
  reserved_regions = λ r. record { address = 0; size = 0 };
  node_stack = empty;
  nodes = λ r. record {
    name = view 0 0;
    address_cells = 0;
    size_cells = 0;
    properties = none;
    parent = none;
    children = none;
    next_sibling = none;
  };
  property_stack = empty;
  properties = λ r. record { name = view 0 0; next_property = none; value = Data.raw (view 0 0) };
  bump = record { region_list = 0; current_region = 0 };
  root = none;
  initialized = false;
}

abbrev started : Run (PlatformInfo × DeviceTree)
started = kernel_cxx_entry 5 5 0x8000 (view 0x30 1) blob responses zeros untouched

abbrev no_info : PlatformInfo
no_info = record {
  framebuffer_count = 0;
  framebuffers = 0;
  mode = 0;
  memmap_count = 0;
  memmap = first_entry;
  device_tree_blob = 0;
  hhdm_base = 0;
}

abbrev result : PlatformInfo × DeviceTree
result = elim started [
  | done out ↦ out
  | fault ↦ (no_info, untouched)
  | halt ↦ (no_info, untouched)
]
