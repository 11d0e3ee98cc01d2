-- ===== src/DeviceTree/SampleTests.antt =====
-- The sample blob is parsed, loaded and printed, and start-up comes through with it.
use octiron.Base.{◌≡◌, refl, none, some, ℕ, List, [], ◌∷◌, done, true, ◌++◌, arith}
use octiron.View.{view}
use octiron.DeviceTree.{Data, DeviceTree}
use octiron.DeviceTree.Rewrite.{parse_from_blob, rewrite_pass}
use octiron.DeviceTree.Layout.{nil, tree}
use octiron.DeviceTree.Print.{print_device_tree}
use octiron.DeviceTree.Says.{ended, SayForest}
use octiron.DeviceTree.Shown.{print_device_tree_shown}
use octiron.DeviceTree.Blobs.{parse_from_blob_tree}
use octiron.DeviceTree.Built.{Built}
use octiron.Boot.Platform.{FramebufferResponse, MemmapResponse}
use octiron.DeviceTree.Sample.{blob, body, stores, ready, blob-IsBlob, loaded}

abbrev framebuffers : FramebufferResponse
framebuffers = record { framebuffer_count = 1; framebuffers = 0x5000 }

abbrev map_response : MemmapResponse
map_response = record {
  entry_count = 1;
  first_entry = λ i. record { base = 0x200000; length = 0x100000; type = 0 };
}

parse_from_blob_tree_example :
    (after : Built 0x1000000 9 7 blob blob-IsBlob.structures blob-IsBlob.strings
      (view 68 0)
      body
      stores)
    × (parse_from_blob 0x1000000 9 blob 7 (view 0 1) 0 stores
        ≡ rewrite_pass 0x1000000 9 blob 7 (view 0 1) after.after)
parse_from_blob_tree_example =
    parse_from_blob_tree 0x1000000 20000 4 9 1 1 blob (view 0 1) 0 (view 68 0) body 0x8000
      (record { base = 0x200000; length = 0x100000; unused = 0x100000 }) [] stores blob-IsBlob
      ready.2 ready.3 (record { enough = omega arith; mapped = omega arith; above = omega arith })
      (record { covers = omega arith; small = omega arith }) (omega arith) (omega arith)
      (omega arith) (omega arith)

print_device_tree_shown_example :
    (text : List ℕ) × (print_device_tree blob
        (record loaded.after { root = some loaded.root; initialized = true })
        20
      ≡ done (ended "Printing the device tree:" ++ text))
    × SayForest blob 0
        (tree
          (view 68 0)
          0
          0
          ((view 112 7, Data.raw (view 84 4)) ∷ [])
          (tree (view 92 1) 0 0 [] nil nil)
          nil)
        text
print_device_tree_shown_example =
    print_device_tree_shown blob
      (record loaded.after { root = some loaded.root; initialized = true }) loaded.low 20
      loaded.root.index none (view 68 0) 0 0 ((view 112 7, Data.raw (view 84 4)) ∷ [])
      (tree (view 92 1) 0 0 [] nil nil) refl (omega arith) loaded.is_tree
      ((omega arith, tt), (tt, tt, tt), tt)
