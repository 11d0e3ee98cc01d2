-- ===== src/Pmm/Spec.antt =====
-- What page-aligned allocation promises: every region is handed out from its low end up.
use octiron.Base.{ℕ, ◌+◌, ◌-◌, ◌||◌, ltb, ◌==◌, if◌then◌else◌, Option, none, some, List, [], ◌∷◌}
use octiron.Pmm.{Region}

-- A region without its block list.
pub record Frames : Type 0 where
  pub base : ℕ
  pub length : ℕ
  pub unused : ℕ

abbrev pub view : Region → Frames
view r = record { base = r.base; length = r.length; unused = r.free_bytes }

-- The first region with room gives its lowest unused bytes.
unfoldable pub give : ℕ → List Frames → Option (ℕ × List Frames)
give size [] = none
give size (f ∷ fs) =
    let rest = give size fs in
    if ltb f.unused size || f.unused == 0
    then elim rest [ none ↦ none | some (a, fs') ↦ some (a, f ∷ fs') ]
    else some (f.base + f.length - f.unused, record f { unused = f.unused - size } ∷ fs)

abbrev pub unused_bytes : List Frames → ℕ
unused_bytes [] = 0
unused_bytes (f ∷ fs) = f.unused + unused_bytes fs
