-- ===== src/Errors/Text.antt =====
-- The table of texts against the names of the enumeration.
use Prim.Native.String.{String}
use text.Mathlib.Text.{starts_with}
use octiron.Base.{◌≡◌, ◌≢◌, refl, true, some}
use octiron.Errors.{ErrorCode, of_code, error_strings, str}

-- How the text of a code begins: its name in the source, but `SYS_OK` for `SUCCESS`.
abbrev label : ErrorCode → String
label ErrorCode.success = "SYS_OK:"
label ErrorCode.not_implemented = "NOT_IMPLEMENTED:"
label ErrorCode.null_argument = "NULL_ARGUMENT:"
label ErrorCode.slab_region_too_small = "SLAB_REGION_TOO_SMALL:"
label ErrorCode.slab_bad_align = "SLAB_BAD_ALIGN:"
label ErrorCode.limine_request_error = "LIMINE_REQUEST_ERROR:"
label ErrorCode.pmm_region_too_small = "PMM_REGION_TOO_SMALL:"
label ErrorCode.pmm_region_list_full = "PMM_REGION_LIST_FULL:"
label ErrorCode.pmm_region_managed = "PMM_REGION_MANAGED:"
label ErrorCode.pmm_region_not_managed = "PMM_REGION_NOT_MANAGED:"
label ErrorCode.pmm_bad_align = "PMM_BAD_ALIGN:"
label ErrorCode.pmm_out_of_mem = "PMM_OUT_OF_MEM:"
label ErrorCode.elf_magic_number = "ELF_MAGIC_NUMBER:"
label ErrorCode.elf_class_32bit = "ELF_CLASS_32BIT:"
label ErrorCode.elf_endianness = "ELF_ENDIANNESS:"
label ErrorCode.elf_wrong_version = "ELF_WRONG_VERSION:"
label ErrorCode.elf_non_sysvabi = "ELF_NON_SYSVABI:"
label ErrorCode.elf_wrong_abi_version = "ELF_WRONG_ABI_VERSION:"
label ErrorCode.elf_unsupported_type = "ELF_UNSUPPORTED_TYPE:"
label ErrorCode.elf_unsupported_machine = "ELF_UNSUPPORTED_MACHINE:"
label ErrorCode.paging_unaligned_addr = "PAGING_UNALIGNED_ADDR:"
label ErrorCode.paging_alloc_failed = "PAGING_ALLOC_FAILED:"
label ErrorCode.paging_map_exists = "PAGING_MAP_EXISTS:"
label ErrorCode.dyn_arr_realloc_failure = "DYN_ARR_REALLOC_FAILURE:"
label ErrorCode.dyn_arr_alloc_failure = "DYN_ARR_ALLOC_FAILURE:"
label ErrorCode.dt_magic_number = "DT_MAGIC_NUMBER:"
label ErrorCode.dt_no_nodes = "DT_NO_NODES:"
label ErrorCode.dt_rewrite_failed = "DT_REWRITE_FAILED:"
label ErrorCode.dt_address_cells_too_large = "DT_ADDRESS_CELLS_TOO_LARGE:"
label ErrorCode.dt_size_cells_too_large = "DT_SIZE_CELLS_TOO_LARGE:"
label ErrorCode.error_code_guard_value = "ERROR_CODE_GUARD_VALUE:"

-- `str` of the error made from a code reads inside the table, at the entry of that very code, whose
-- text begins with the name of the code (with `SYS_OK` for success). The guard value is no code.
pub str-of_code :
    (c : ErrorCode)
    → c ≢ ErrorCode.error_code_guard_value
    → (str (of_code c) ≡ some (error_strings c)) × (starts_with (error_strings c) (label c) ≡ true)
unfolding str error_strings
str-of_code ErrorCode.success h = (refl, refl)
str-of_code ErrorCode.not_implemented h = (refl, refl)
str-of_code ErrorCode.null_argument h = (refl, refl)
str-of_code ErrorCode.slab_region_too_small h = (refl, refl)
str-of_code ErrorCode.slab_bad_align h = (refl, refl)
str-of_code ErrorCode.limine_request_error h = (refl, refl)
str-of_code ErrorCode.pmm_region_too_small h = (refl, refl)
str-of_code ErrorCode.pmm_region_list_full h = (refl, refl)
str-of_code ErrorCode.pmm_region_managed h = (refl, refl)
str-of_code ErrorCode.pmm_region_not_managed h = (refl, refl)
str-of_code ErrorCode.pmm_bad_align h = (refl, refl)
str-of_code ErrorCode.pmm_out_of_mem h = (refl, refl)
str-of_code ErrorCode.elf_magic_number h = (refl, refl)
str-of_code ErrorCode.elf_class_32bit h = (refl, refl)
str-of_code ErrorCode.elf_endianness h = (refl, refl)
str-of_code ErrorCode.elf_wrong_version h = (refl, refl)
str-of_code ErrorCode.elf_non_sysvabi h = (refl, refl)
str-of_code ErrorCode.elf_wrong_abi_version h = (refl, refl)
str-of_code ErrorCode.elf_unsupported_type h = (refl, refl)
str-of_code ErrorCode.elf_unsupported_machine h = (refl, refl)
str-of_code ErrorCode.paging_unaligned_addr h = (refl, refl)
str-of_code ErrorCode.paging_alloc_failed h = (refl, refl)
str-of_code ErrorCode.paging_map_exists h = (refl, refl)
str-of_code ErrorCode.dyn_arr_realloc_failure h = (refl, refl)
str-of_code ErrorCode.dyn_arr_alloc_failure h = (refl, refl)
str-of_code ErrorCode.dt_magic_number h = (refl, refl)
str-of_code ErrorCode.dt_no_nodes h = (refl, refl)
str-of_code ErrorCode.dt_rewrite_failed h = (refl, refl)
str-of_code ErrorCode.dt_address_cells_too_large h = (refl, refl)
str-of_code ErrorCode.dt_size_cells_too_large h = (refl, refl)
str-of_code ErrorCode.error_code_guard_value h = absurd (h refl)
