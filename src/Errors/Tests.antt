-- ===== src/Errors/Tests.antt =====
-- The error stack on concrete codes.
use octiron.Base.{◌≡◌, ◌≢◌, ◌≤◌, ◌↔◌, true, arith, bit_or}
use octiron.Errors.{ErrorCode, of_code, push, pop, top, is_err, empty_error}
use octiron.Errors.Stack.{push-is_err, push_overlaps}

push-is_err_example :
    is_err (push (of_code ErrorCode.pmm_out_of_mem) ErrorCode.paging_alloc_failed) ≡ true
push-is_err_example =
    push-is_err (of_code ErrorCode.pmm_out_of_mem) ErrorCode.paging_alloc_failed
      λ e. ground (arith, e)

push_overlaps_example :
    (top (push (of_code ErrorCode.pmm_out_of_mem) ErrorCode.dyn_arr_alloc_failure) ≡ 30)
    × (pop (push (of_code ErrorCode.pmm_out_of_mem) ErrorCode.dyn_arr_alloc_failure) ≡ 15)
    × (pop (push (of_code ErrorCode.pmm_out_of_mem) ErrorCode.dyn_arr_alloc_failure) ≡ 11
        ↔ bit_or 11 12 ≡ 11)
    × (2 ≤ 24 → pop (push empty_error ErrorCode.dyn_arr_alloc_failure) ≢ empty_error)
push_overlaps_example =
    push_overlaps (of_code ErrorCode.pmm_out_of_mem) ErrorCode.dyn_arr_alloc_failure (omega arith)
