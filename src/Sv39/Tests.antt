-- ===== src/Sv39/Tests.antt =====
-- Page tables at 0x10000, 0x11000 and 0x12000, and managers with one region and with none.
use octiron.Base.{
  ◌%◌, ◌≡◌, ◌≢◌, refl, true, false, done, none, some, [], ◌∷◌, arith, bit_or, bit_and, ◌==◌,
  if◌then◌else◌, List, map,
}
use octiron.Errors.{ErrorCode, of_code, str, error_strings}
use octiron.Words.{Words, write, fill_zero}
use octiron.Pmm.{Pmm, start}
use octiron.Pmm.Spec.{Frames, give, view}
use octiron.Slab.{link_blocks, new_region}
use octiron.Slab.Free.{taken}
use octiron.Slab.Grow.{grown}
use octiron.Pmm.Add.{installed, once, twice}
use octiron.Pmm.Alloc.{Allocated}
use octiron.Pmm.Tests.{buffer, no_regions, no_regions-IsPmm, one_region, one_region-IsPmm}
use octiron.Sv39.{
  entry_at, table_entry, get_address, is_valid, is_leaf, tef_valid, ensure_table, map_small_page,
  virt_to_phys,
}
use octiron.Sv39.Entry.{table_entry_spills}
use octiron.Sv39.Walk.{HasTables, mapped, map_then_walk, walk_drops_offset}
use octiron.Sv39.Map.{
  page_answer, out_of_memory_error, map_small_page_misreports, ensure_table_fresh,
}

table_entry_spills_example : table_entry 0x101018 1 % 1024 ≡ 7
table_entry_spills_example = table_entry_spills 0x101018 1 (omega arith)

abbrev tables : Words
tables p = if p == 0x10000 then 0x4401 else if p == 0x11000 then 0x4801 else 0

abbrev state : Pmm
state = start tables

tables-HasTables : HasTables 0x10000 0x1008 tables
unfolding is_valid is_leaf get_address entry_at
tables-HasTables = record {
  valid_l2 = refl;
  inner_l2 = refl;
  valid_l1 = refl;
  inner_l1 = refl;
  free_l0 = refl;
  apart_l2 = omega arith;
  apart_l1 = omega arith;
}

map_then_walk_example :
    let m = mapped 0x10000 0x1008 0x101000 6 state tables-HasTables in
    (map_small_page 0x10000 0x1008 0x101000 6 state
      ≡ done (of_code ErrorCode.success, record state { mem = m }))
    × (virt_to_phys 0x10000 0x1008 m ≡ done (bit_or 0x101000 (bit_and 0x1008 4096)))
map_then_walk_example =
    map_then_walk 0x10000 0x1008 0x101000 6 state tables-HasTables refl refl (omega arith)
      (omega arith) (omega arith)

walk_drops_offset_example :
    virt_to_phys 0x10000 0x1008 (mapped 0x10000 0x1008 0x101000 6 state tables-HasTables)
    ≢ done 0x101008
walk_drops_offset_example =
    walk_drops_offset 0x10000 0x1008 0x101000 6 state tables-HasTables refl (omega arith)
      (omega arith) (omega arith) (omega arith)

no_regions-unused : is_valid (no_regions.mem (entry_at 0x10000 2 0x1000)) ≡ false
unfolding is_valid entry_at grown link_blocks new_region write
no_regions-unused = refl

map_small_page_misreports_example :
    (map_small_page 0x10000 0x1000 0x101000 6 no_regions ≡ done (out_of_memory_error, no_regions))
    × (str out_of_memory_error ≡ some (error_strings ErrorCode.dyn_arr_realloc_failure))
map_small_page_misreports_example =
    map_small_page_misreports buffer 0x10000 0x1000 0x101000 6 no_regions no_regions-IsPmm refl refl
      no_regions-unused (unfold give in refl)

abbrev frames_left : List Frames
frames_left = record { base = 0x101000; length = 0x5000; unused = 0x4000 } ∷ []

one_region-unused : is_valid (one_region.mem 0x10000) ≡ false
unfolding is_valid installed twice once taken fill_zero grown link_blocks new_region write
one_region-unused = refl

one_region-give : give 4096 (map view one_region.regions) ≡ some (0x101000, frames_left)
unfolding give installed
one_region-give = refl

ensure_table_fresh_example :
    let t : Allocated buffer 4096 one_region 0x101000 frames_left =
      page_answer buffer one_region
        (some (0x101000, frames_left))
        one_region-IsPmm
        one_region-give in
    let m = write t.after.mem 0x10000 (table_entry 0x101000 tef_valid) in
    (ensure_table 0x10000 one_region ≡ done (none, record t.after { mem = m }))
    × (get_address (m 0x10000) ≡ 0x101000)
    × (is_valid (m 0x10000) ≡ true)
    × (is_leaf (m 0x10000) ≡ false)
    × (m 0x101008 ≡ 0)
ensure_table_fresh_example =
    ensure_table_fresh buffer 0x10000 0x101000 0x101008 frames_left one_region one_region-IsPmm
      one_region-unused one_region-give (omega arith) (omega arith) (omega arith) (omega arith)
