-- ===== src/DeviceTree/Sample.antt =====
-- A blob with a root that has a property and a child.
use octiron.Base.{
  ℕ, zero, suc, ◌<◌, ◌+◌, ◌≡◌, ◌≢◌, refl, none, List, [], ◌∷◌, map, inr, done, false, ◌==◌,
  if◌then◌else◌, arith, subst,
}
use octiron.Number.{Bytes, load, flip_endianness32, read_big_endian32}
use octiron.Number.Endian.{IsBytes}
use octiron.Pmm.{Pmm}
use octiron.Pmm.Spec.{view as frames}
use octiron.Pmm.Invariant.{IsPmm}
use octiron.Boot.{MemmapEntry, set_up_memory}
use octiron.Boot.Filled.{IsGood, set_up_memory-Filled}
use octiron.View.{view}
use octiron.Stack.{empty}
use octiron.DeviceTree.{Data, DeviceTree}
use octiron.DeviceTree.Layout.{Body, IsText, nil, tree}
use octiron.DeviceTree.Names.{is_text, kind_of}
use octiron.DeviceTree.Rewritten.{Rewrites}
use octiron.DeviceTree.Load.{tree_of}
use octiron.DeviceTree.Blobs.{parse_from_blob_tree}
use octiron.DeviceTree.Built.{IsBlob, Built}

abbrev byte_at : List (ℕ × ℕ) → ℕ → ℕ
byte_at [] p = 0
byte_at ((a, v) ∷ rest) p = if p == a then v else byte_at rest p

abbrev AllBytes : List (ℕ × ℕ) → Type 0
AllBytes [] = Unit {0}
AllBytes ((a, v) ∷ rest) = (v < 256) × AllBytes rest

-- The header, the structure block at 64 and the strings block at 112.
abbrev content : List (ℕ × ℕ)
content =
    (0, 0xD0)
    ∷ (1, 0x0D)
    ∷ (2, 0xFE)
    ∷ (3, 0xED)
    ∷ (11, 64)
    ∷ (15, 112)
    ∷ (19, 40)
    ∷ (67, 1)
    ∷ (75, 3)
    ∷ (79, 4)
    ∷ (87, 5)
    ∷ (91, 1)
    ∷ (92, 99)
    ∷ (99, 2)
    ∷ (103, 2)
    ∷ (107, 9)
    ∷ (112, 112)
    ∷ (113, 104)
    ∷ (114, 97)
    ∷ (115, 110)
    ∷ (116, 100)
    ∷ (117, 108)
    ∷ (118, 101)
    ∷ []

abbrev pub blob : Bytes
blob = byte_at content

abbrev pub body : Body
body = Body.prop (view 112 7) (view 84 4) (Body.child (view 92 1) Body.close Body.close)

-- The memory map's one entry, and the manager after start-up.
abbrev pub memmap : List MemmapEntry
memmap = record { base = 0x200000; length = 0x100000; type = 0 } ∷ []

pub memmap-IsGood : IsGood 0x8000 [] memmap
memmap-IsGood = (
  record {
    positive = omega arith;
    no_wrap = omega arith;
    reaches = omega arith;
    has_page = omega arith;
    apart_buf = inr (omega arith);
    apart = tt;
    few = omega arith;
    sum = omega arith;
  },
  tt,
)

pub ready :
    (s : Pmm) × (set_up_memory 0x8000 memmap (λ p. 0) ≡ done s)
    × IsPmm 0x8000 s
    × (map frames s.regions ≡ record { base = 0x200000; length = 0x100000; unused = 0x100000 } ∷ [])
    × (s.free_bytes ≡ 0x100000)
ready = set_up_memory-Filled 0x8000 memmap (λ p. 0) (omega arith) refl memmap-IsGood

-- The parser's variables before the first call.
abbrev pub stores : DeviceTree
stores = record {
  pmm = ready.0;
  reserved_stack = empty;
  reserved_regions = λ r. record { address = 0; size = 0 };
  node_stack = empty;
  nodes = λ r. record {
    name = view 0 0;
    address_cells = 0;
    size_cells = 0;
    properties = none;
    parent = none;
    children = none;
    next_sibling = none;
  };
  property_stack = empty;
  properties = λ r. record { name = view 0 0; next_property = none; value = Data.raw (view 0 0) };
  bump = record { region_list = 0; current_region = 0 };
  root = none;
  initialized = false;
}

-- A text of one byte, and the empty one.
short-IsText : (p : ℕ) → blob p ≢ 0 → blob (p + 1) ≡ 0 → IsText blob 9 p (view p 1)
short-IsText p some_byte end = record {
  starts = refl;
  short = omega arith;
  ends = end;
  inside = λ i l. subst (λ q. blob q ≢ 0) {x = p} {y = p + i} (omega (arith, l)) some_byte;
}

phandle_bytes : (i : ℕ) → i < 7 → blob (112 + i) ≢ 0
phandle_bytes zero l = omega arith
phandle_bytes (suc zero) l = omega arith
phandle_bytes (suc (suc zero)) l = omega arith
phandle_bytes (suc (suc (suc zero))) l = omega arith
phandle_bytes (suc (suc (suc (suc zero)))) l = omega arith
phandle_bytes (suc (suc (suc (suc (suc zero))))) l = omega arith
phandle_bytes (suc (suc (suc (suc (suc (suc zero)))))) l = omega arith
phandle_bytes (suc (suc (suc (suc (suc (suc (suc i))))))) l = absurd (omega (arith, l))

phandle-IsText : IsText blob 9 112 (view 112 7)
phandle-IsText = record { starts = refl; short = omega arith; ends = refl; inside = phandle_bytes }

pub blob-IsBlob : IsBlob blob 9 0 (view 68 0) body
unfolding load flip_endianness32 read_big_endian32
blob-IsBlob = record {
  structures = 64;
  strings = 112;
  to = 40;
  magic = refl;
  at_structures = refl;
  at_strings = refl;
  no_reservation = refl;
  begins = refl;
  root = record {
    starts = refl;
    short = omega arith;
    ends = refl;
    inside = λ i l. absurd (omega (arith, l));
  };
  spells = (
    refl,
    refl,
    refl,
    phandle-IsText,
    (refl, short-IsText 92 (omega arith) refl, (36, (refl, refl), (refl, refl))),
  );
  ends = refl;
  small = omega arith;
}

-- The stores behind the loop over the tokens, marked as initialized.
pub loaded :
    Built 0x1000000 9 8 blob blob-IsBlob.structures blob-IsBlob.strings (view 68 0) body stores
loaded =
    (parse_from_blob_tree 0x1000000 20000 4 9 1 2 blob (view 0 1) 0 (view 68 0) body 0x8000
      (record { base = 0x200000; length = 0x100000; unused = 0x100000 }) [] stores blob-IsBlob
      ready.2 ready.3 (record { enough = omega arith; mapped = omega arith; above = omega arith })
      (record { covers = omega arith; small = omega arith }) (omega arith) (omega arith)
      (omega arith) (omega arith)).0

byte_at_small : (content : List (ℕ × ℕ)) → AllBytes content → (p : ℕ) → byte_at content p < 256
byte_at_small [] h p = omega arith
byte_at_small ((a, v) ∷ rest) (l, h) p = ground (arith, l, byte_at_small rest h p)

pub blob-IsBytes : IsBytes blob
blob-IsBytes = byte_at_small content (omega arith)

pub sample-Rewrites :
    Rewrites 0x1000000 9 64 blob none (tree_of (view 68 0) body) (
      tree
        (view 68 0)
        2
        1
        ((view 112 7, Data.phandle 5) ∷ [])
        (tree (view 92 1) 0 0 [] nil nil)
        nil)
unfolding read_big_endian32 is_text kind_of
sample-Rewrites = (
  refl,
  (
    (view 112 7, Data.phandle 5) ∷ [],
    (view 84 4, refl, refl, refl, (refl, refl)),
    (refl, refl, tt),
  ),
  (refl, ([], (refl, refl), tt), tt, tt),
  tt,
)
