-- ===== src/DeviceTree/Tests.antt =====
-- A blob with one node, whose `#address-cells` is 2, and stacks with free places.
use octiron.Base.{
  ℕ, ◌^◌, ◌≡◌, ◌≢◌, ◌⊎◌, refl, none, some, Run, done, fault, halt, false, ◌-◌, List, [], ◌∷◌,
  get_elem?, arith, ◌==◌, if◌then◌else◌, ltb,
}
use octiron.Number.{Bytes, load, flip_endianness32, align_up, read_big_endian32}
use octiron.Memory.{strlen}
use octiron.Errors.{Error, is_err}
use octiron.Pmm.{start}
use octiron.Words.{Words}
use octiron.View.{view, advance, from_null_term}
use octiron.Stack.{Stack, push_back, grow}
use octiron.DeviceTree.{Node, Data, DeviceStatus, DeviceTree, emplace_node, emplace_property}
use octiron.DeviceTree.Names.{codes, is_text, kind_of}
use octiron.DeviceTree.Rewrite.{
  status_of, parse_from_blob, rewrite_pass, rewrite_node, first_pass, second_pass, rewrite_property,
}
use octiron.DeviceTree.Parse.{
  Parser, handle, read_reserved, parse_structures, parse_node, pre_parse_property, enter_node,
  add_property,
}
use octiron.DeviceTree.Aligned.{parse_unasserted, parse_structures_unasserted}
use octiron.DeviceTree.Blob.{parse_from_blob_stuck}
use octiron.DeviceTree.Status.{status_of_terminated}
use octiron.DeviceTree.Small.{AreSmall}
use octiron.DeviceTree.Bounds.{parse_from_blob-AreSmall}

abbrev byte_at : List (ℕ × ℕ) → ℕ → ℕ
byte_at [] p = 0
byte_at ((a, v) ∷ rest) p = if p == a then v else byte_at rest p

abbrev byte_of_text : List ℕ → ℕ → ℕ
byte_of_text cs i = elim (get_elem? cs i) [ none ↦ 0 | some c ↦ c ]

-- Header, the node with its property, and the strings block at 96.
abbrev blob : Bytes
blob p =
    if ltb p 96
    then byte_at
        ((0, 0xD0)
          ∷ (1, 0x0D)
          ∷ (2, 0xFE)
          ∷ (3, 0xED)
          ∷ (11, 64)
          ∷ (15, 96)
          ∷ (19, 40)
          ∷ (67, 1)
          ∷ (75, 3)
          ∷ (79, 4)
          ∷ (87, 2)
          ∷ (91, 2)
          ∷ (95, 9)
          ∷ [])
        p
    else byte_of_text (codes "#address-cells") (p - 96)

abbrev words : Words
words p = 0

abbrev some_places : Stack
some_places = record { size = 0; capacity = 4; buffer = 0x7000 }

abbrev new_node : Node
new_node = record {
  name = view 0 0;
  address_cells = 0;
  size_cells = 0;
  properties = none;
  parent = none;
  children = none;
  next_sibling = none;
}

abbrev tree : DeviceTree
tree = record {
  pmm = start words;
  reserved_stack = some_places;
  reserved_regions = λ r. record { address = 0; size = 0 };
  node_stack = some_places;
  nodes = λ r. new_node;
  property_stack = some_places;
  properties = λ r. record { name = view 0 0; next_property = none; value = Data.raw (view 0 0) };
  bump = record { region_list = 0; current_region = 0 };
  root = none;
  initialized = false;
}

abbrev parsed : Run (Error × DeviceTree)
parsed = parse_from_blob 0 20 blob 10 (view 0 1) 0 tree

abbrev result : Error × DeviceTree
result = elim parsed [ done out ↦ out | fault ↦ (0, tree) | halt ↦ (0, tree) ]

parsed-result : parsed ≡ done result
unfolding parse_from_blob rewrite_pass rewrite_node first_pass second_pass rewrite_property kind_of
    is_text read_reserved parse_structures handle parse_node pre_parse_property enter_node
    add_property emplace_node emplace_property push_back grow from_null_term strlen align_up
    flip_endianness32 read_big_endian32 load is_err
parsed-result = refl

parse_from_blob-AreSmall_example : AreSmall result.1
parse_from_blob-AreSmall_example =
    parse_from_blob-AreSmall 0 20 blob 10 (view 0 1) 0 tree result (λ r. omega arith) parsed-result

-- With a memory reservation.
abbrev reserving : Bytes
reserving p = if p == 47 then 1 else if p == 55 then 1 else blob p

reserving_loads :
    (flip_endianness32 (load 4 reserving 0) ≡ 0xD00DFEED)
    × (flip_endianness32 (load 4 reserving 16) ≡ 40)
    × (load 8 reserving 40 ≡ 2 ^ 56)
    × (load 8 reserving 48 ≡ 2 ^ 56)
unfolding flip_endianness32 load
reserving_loads = (refl, refl, refl, refl)

parse_from_blob_stuck_example : parse_from_blob 0 20 reserving 10 (view 0 1) 0 tree ≢ done (0, tree)
unfolding flip_endianness32 load
parse_from_blob_stuck_example =
    parse_from_blob_stuck 0 20 reserving 10 (view 0 1) 0 tree (0, tree) refl (omega arith)
      (omega arith)

abbrev parser : Parser
parser = record { current = none; offset = 0; depth = 0; tree = tree }

parse_structures_unasserted_example :
    parse_structures 0 20 blob 10 64 96 parser ≡ parse_unasserted 0 20 blob 10 64 96 parser
parse_structures_unasserted_example = parse_structures_unasserted 0 20 blob 10 64 96 parser refl

abbrev okay_text : Bytes
okay_text p = byte_of_text (codes "okay") p

status_of_terminated_example :
    (status_of 0 20 okay_text (view 0 5) ≡ Data.status_unset (view 0 5))
    ⊎ (status_of 0 20 okay_text (view 0 5)
        ≡ Data.status DeviceStatus.fail_with_reason (advance (view 0 5) 5))
status_of_terminated_example = status_of_terminated 0 20 okay_text (view 0 5) 4 refl refl
