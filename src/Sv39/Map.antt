-- ===== src/Sv39/Map.antt =====
-- A missing intermediate table: a fresh page from the physical memory manager, or its error.
use octiron.Base.{
  ℕ, ◌+◌, ◌%◌, ◌^◌, ◌≤◌, ◌<◌, ◌≡◌, ◌≢◌, refl, true, false, arith, done, Option, none, some, List,
  map, subst,
}
use octiron.Number.{is_aligned}
use octiron.Errors.{Error, ErrorCode, of_code, is_err, push, str, error_strings}
use octiron.Words.{write, write_same, write_other}
use octiron.Pmm.{Pmm}
use octiron.Pmm.Spec.{Frames, view, give}
use octiron.Pmm.Invariant.{IsPmm}
use octiron.Pmm.Alloc.{Allocated, AllocResult, alloc-AllocResult}
use octiron.Sv39.{
  table_entry, get_address, is_valid, is_leaf, tef_valid, ensure_table, map_small_page,
}
use octiron.Sv39.Entry.{table_entry_fields, is_valid_lem, is_leaf-false}
use octiron.Sv39.Walk.{l2_at}

-- The answer of the manager to the request for one page.
pub page_answer :
    (buf : ℕ) (s : Pmm) (g : Option (ℕ × List Frames))
    → IsPmm buf s
    → give 4096 (map view s.regions) ≡ g
    → AllocResult buf 4096 s g
page_answer buf s g v e =
    subst (AllocResult buf 4096 s) e (alloc-AllocResult buf 4096 s v (omega arith))

-- The error that comes out.
abbrev pub out_of_memory_error : Error
out_of_memory_error = push (of_code ErrorCode.pmm_out_of_mem) ErrorCode.paging_alloc_failed

ensure_table_fails :
    (buf slot : ℕ) (s : Pmm)
    → IsPmm buf s
    → is_valid (s.mem slot) ≡ false
    → give 4096 (map view s.regions) ≡ none
    → ensure_table slot s ≡ done (some out_of_memory_error, s)
unfolding ensure_table is_err
ensure_table_fails buf slot s v free e = rw (free, page_answer buf s none v e)

-- With no page left for the first intermediate table, `map_small_page` changes nothing, and the text
-- of its error is that of `DYN_ARR_REALLOC_FAILURE`: neither the code that was pushed nor the code
-- below it.
pub map_small_page_misreports :
    (buf root va pa flags : ℕ) (s : Pmm)
    → IsPmm buf s
    → va % 8 ≡ 0
    → pa % 8 ≡ 0
    → is_valid (s.mem (l2_at root va)) ≡ false
    → give 4096 (map view s.regions) ≡ none
    → (map_small_page root va pa flags s ≡ done (out_of_memory_error, s))
      × (str out_of_memory_error ≡ some (error_strings ErrorCode.dyn_arr_realloc_failure))
unfolding map_small_page is_aligned
map_small_page_misreports buf root va pa flags s v a b free e = (
  rw (ensure_table_fails buf (l2_at root va) s v free e) (ground (arith, a, b)),
  unfold push str in refl,
)

-- A missing table, when the manager has a page at `a` that an entry can hold: the entry becomes
-- valid, leads to the page and is no leaf, and the new page's other words are 0, so that the new
-- table's entries are not valid.
pub ensure_table_fresh :
    (buf slot a p : ℕ) (fs : List Frames) (s : Pmm) (v : IsPmm buf s)
    → is_valid (s.mem slot) ≡ false
    → (e : give 4096 (map view s.regions) ≡ some (a, fs)) → a < 2 ^ 56
    → a ≤ p
    → p < a + 4096
    → p ≢ slot
    → let t : Allocated buf 4096 s a fs = page_answer buf s (some (a, fs)) v e in
      let m' = write t.after.mem slot (table_entry a tef_valid) in
      (ensure_table slot s ≡ done (none, record t.after { mem = m' }))
      × (get_address (m' slot) ≡ a)
      × (is_valid (m' slot) ≡ true)
      × (is_leaf (m' slot) ≡ false)
      × (m' p ≡ 0)
ensure_table_fresh buf slot a p fs s v free e small low high other =
    let t : Allocated buf 4096 s a fs = page_answer buf s (some (a, fs)) v e in
    let entry = table_entry a tef_valid in
    let fields = table_entry_fields a 1 t.page small (omega arith) in
    rw (write_same t.after.mem slot entry, write_other t.after.mem slot entry p other)
      (
        unfold ensure_table is_err in rw (free, t.runs),
        fields.0,
        ground (arith, is_valid_lem entry, fields.1),
        is_leaf-false entry (omega (arith, fields.1)),
        t.zeroed p low high,
      )
