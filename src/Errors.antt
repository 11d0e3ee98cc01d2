-- ===== src/Errors.antt =====
-- kernel/include/types/error.h: the error codes, their texts, and the error stack in one `u64`.
mod Tests
pub mod Stack
pub mod Text
use Prim.Native.String.{String}
use octiron.Base.{
  ℕ, ◌+◌, ◌*◌, ◌/◌, ◌%◌, ◌^◌, Bool, not, Option, none, some, List, [], ◌∷◌, ◌==◌, get_elem?,
  bit_and, bit_or,
}
use octiron.Number.{u64, ◌<<<◌, ◌>>>◌}
use mathlib.Core.Option

pub data ErrorCode : Type 0 where
  success not_implemented null_argument slab_region_too_small : ErrorCode
  slab_bad_align limine_request_error pmm_region_too_small pmm_region_list_full : ErrorCode
  pmm_region_managed pmm_region_not_managed pmm_bad_align pmm_out_of_mem : ErrorCode
  elf_magic_number elf_class_32bit elf_endianness elf_wrong_version : ErrorCode
  elf_non_sysvabi elf_wrong_abi_version elf_unsupported_type elf_unsupported_machine : ErrorCode
  paging_unaligned_addr paging_alloc_failed paging_map_exists dyn_arr_realloc_failure : ErrorCode
  dyn_arr_alloc_failure dt_magic_number dt_no_nodes dt_rewrite_failed : ErrorCode
  dt_address_cells_too_large dt_size_cells_too_large error_code_guard_value : ErrorCode

-- `static_cast<u8>(code)`.
abbrev pub code : ErrorCode → ℕ
code success = 0
code not_implemented = 1
code null_argument = 2
code slab_region_too_small = 3
code slab_bad_align = 4
code limine_request_error = 5
code pmm_region_too_small = 6
code pmm_region_list_full = 7
code pmm_region_managed = 8
code pmm_region_not_managed = 9
code pmm_bad_align = 10
code pmm_out_of_mem = 11
code elf_magic_number = 12
code elf_class_32bit = 13
code elf_endianness = 14
code elf_wrong_version = 15
code elf_non_sysvabi = 16
code elf_wrong_abi_version = 17
code elf_unsupported_type = 18
code elf_unsupported_machine = 19
code paging_unaligned_addr = 20
code paging_alloc_failed = 21
code paging_map_exists = 22
code dyn_arr_realloc_failure = 23
code dyn_arr_alloc_failure = 24
code dt_magic_number = 25
code dt_no_nodes = 26
code dt_rewrite_failed = 27
code dt_address_cells_too_large = 28
code dt_size_cells_too_large = 29
code error_code_guard_value = 30

-- The codes in the order of the enumeration.
abbrev pub codes : List ErrorCode
codes =
    success ∷ not_implemented ∷ null_argument ∷ slab_region_too_small ∷ slab_bad_align
    ∷ limine_request_error ∷ pmm_region_too_small ∷ pmm_region_list_full ∷ pmm_region_managed
    ∷ pmm_region_not_managed ∷ pmm_bad_align ∷ pmm_out_of_mem ∷ elf_magic_number ∷ elf_class_32bit
    ∷ elf_endianness ∷ elf_wrong_version ∷ elf_non_sysvabi ∷ elf_wrong_abi_version
    ∷ elf_unsupported_type ∷ elf_unsupported_machine ∷ paging_unaligned_addr ∷ paging_alloc_failed
    ∷ paging_map_exists ∷ dyn_arr_realloc_failure ∷ dyn_arr_alloc_failure ∷ dt_magic_number
    ∷ dt_no_nodes ∷ dt_rewrite_failed ∷ dt_address_cells_too_large ∷ dt_size_cells_too_large
    ∷ error_code_guard_value ∷ []

-- The table that `str` indexes. It has one entry for each code before the guard value.
unfoldable pub error_strings : ErrorCode → String
error_strings success = "SYS_OK: No error."
error_strings not_implemented = "NOT_IMPLEMENTED: This function has not been implemented."
error_strings null_argument = "NULL_ARGUMENT: Pointer argument to function was NULL."
error_strings slab_region_too_small =
    "SLAB_REGION_TOO_SMALL: Region added to slab_alloc is too small to allocate a block from."
error_strings slab_bad_align = "SLAB_BAD_ALIGN: Region added to slab_alloc is not aligned properly."
error_strings limine_request_error = "LIMINE_REQUEST_ERROR: Limine requests failed."
error_strings pmm_region_too_small =
    "PMM_REGION_TOO_SMALL: Added a region that was smaller than system BASE_PAGE_SIZE."
error_strings pmm_region_list_full =
    "PMM_REGION_LIST_FULL: Region list is full, can't add more regions."
error_strings pmm_region_managed =
    "PMM_REGION_MANAGED: Added a region that was already being managed."
error_strings pmm_region_not_managed =
    "PMM_REGION_NOT_MANAGED: Removed a region that was not being managed."
error_strings pmm_bad_align =
    "PMM_BAD_ALIGN: Alignment must be a power of two and at least system BASE_PAGE_SIZE."
error_strings pmm_out_of_mem =
    "PMM_OUT_OF_MEM: There is not enough free memory to satisfy the allocation request."
error_strings elf_magic_number =
    "ELF_MAGIC_NUMBER: Invalid magic number found in file header, file may not be an ELF file."
error_strings elf_class_32bit =
    "ELF_CLASS_32BIT: System only supports 64-bit ELF files, but a 32-bit ELF file was found."
error_strings elf_endianness = "ELF_ENDIANNESS: System only supports little-endian ELF files."
error_strings elf_wrong_version =
    "ELF_WRONG_VERSION: ELF file is compiled with non-current ELF version."
error_strings elf_non_sysvabi =
    "ELF_NON_SYSVABI: ELF file is compiled with an ABI that isn't System-V."
error_strings elf_wrong_abi_version =
    "ELF_WRONG_ABI_VERSION: Elf file was not compiled for System-V version 3."
error_strings elf_unsupported_type =
    "ELF_UNSUPPORTED_TYPE: Elf file type is not one-of: { Relocatable, Executable, SharedObject, CoreDump }."
error_strings elf_unsupported_machine =
    "ELF_UNSUPPORTED_MACHINE: Elf file was not compiled for RISC-V."
error_strings paging_unaligned_addr =
    "PAGING_UNALIGNED_ADDR: Attempted to install a page table with an unaligned vaddr_t or paddr_t."
error_strings paging_alloc_failed =
    "PAGING_ALLOC_FAILED: Physical paging allocation for intermediate page table failed."
error_strings paging_map_exists =
    "PAGING_MAP_EXISTS: Attempted to install a mapping where one already exists."
error_strings dyn_arr_realloc_failure = "DYN_ARR_REALLOC_FAILURE: Failed to grow a dynamic array."
error_strings dyn_arr_alloc_failure =
    "DYN_ARR_ALLOC_FAILURE: Failed to allocate initial memory for dynamic array."
error_strings dt_magic_number =
    "DT_MAGIC_NUMBER: The device tree blob magic number is invalid. Expected 0xD00DFEED."
error_strings dt_no_nodes = "DT_NO_NODES: The parsed device tree blob was empty."
error_strings dt_rewrite_failed =
    "DT_REWRITE_FAILED: Failed to rewrite device tree properties, either due to an unsupported property type or a malformed DTB."
error_strings dt_address_cells_too_large =
    "DT_ADDRESS_CELLS_TOO_LARGE: Failed to parse device tree, #address-cells property encountered with a value larger than 3."
error_strings dt_size_cells_too_large =
    "DT_SIZE_CELLS_TOO_LARGE: Failed to parse device tree, #size-cells property encountered with a value larger than 2."
error_strings error_code_guard_value = ""

-- `m_stack`.
abbrev pub Error : Type 0
Error = ℕ

-- `error()` and `error(ErrorCode)`.
abbrev pub empty_error : Error
empty_error = 0

abbrev pub of_code : ErrorCode → Error
of_code c = code c

-- `push` shifts by `sizeof(ErrorCode)`, which is 1, and or-s the code in.
unfoldable pub push : Error → ErrorCode → Error
push e c = bit_or (u64 (e <<< 1)) (code c)

unfoldable pub pop : Error → Error
pop e = e >>> 1

unfoldable pub top : Error → ℕ
top e = bit_and e 0xff

unfoldable pub is_ok : Error → Bool
unfolding top
is_ok e = top e == code success

unfoldable pub is_err : Error → Bool
unfolding is_ok
is_err e = not (is_ok e)

-- `error_strings[top()]`; `none` is a read behind the table's end.
unfoldable pub str : Error → Option String
unfolding top error_strings
str e = elim (get_elem? codes (top e)) [
  | none ↦ none
  | some error_code_guard_value ↦ none
  | some c ↦ some (error_strings c)
]
