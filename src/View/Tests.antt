-- ===== src/View/Tests.antt =====
-- The views on a memory that counts up.
use octiron.Base.{◌%◌, ◌≡◌, ◌↔◌}
use octiron.Base.Int.{pos}
use octiron.Number.{Bytes}
use octiron.Memory.Laws.{SameBytes}
use octiron.View.{View, view, find, compare}
use octiron.View.Laws.{IsFirst, find-IsFirst, compare_iff}

abbrev ramp : Bytes
ramp a = a % 256

abbrev text : View
text = view 0x10 8

find-IsFirst_example : IsFirst text 0x13 1 ramp (find text 0x13 1 ramp)
find-IsFirst_example = find-IsFirst text 0x13 1 ramp

compare_iff_example :
    (compare text (view 0x110 8) ramp ≡ pos 0) ↔ ((text.size ≡ 8) × SameBytes 8 0x10 0x110 ramp)
compare_iff_example = compare_iff text (view 0x110 8) ramp
