-- ===== src/Stack/Tests.antt =====
-- A full stack of two numbers of 8 bytes and a manager with five pages.
use octiron.Base.{
  ℕ, suc, ◌<◌, ◌≡◌, inr, refl, some, [], ◌∷◌, arith, ◌==◌, if◌then◌else◌, zero, get_elem?, List,
}
use octiron.Pmm.Spec.{give, Frames}
use octiron.Pmm.Add.{installed}
use octiron.Number.{align_up}
use octiron.Pmm.Tests.{buffer, one_region, one_region-IsPmm}
use octiron.Stack.{Stacked, at}
use octiron.Stack.Push.{Holds, Pushed, push_back-Holds}

abbrev two : Stacked ℕ
two = record {
  pmm = one_region;
  stack = record { size = 2; capacity = 2; buffer = 0x7000 };
  items = λ r. if r.index == 0 then 5 else 6;
}

two-Holds : Holds two (5 ∷ 6 ∷ [])
two-Holds = record { fits = omega arith; counted = refl; held = at_index }
  where
    at_index : (i : ℕ) → i < 2 → get_elem? (5 ∷ 6 ∷ []) i ≡ some (at two.stack two.items i)
    at_index zero h = refl
    at_index (suc zero) h = refl
    at_index (suc (suc i)) h = absurd (omega arith)

abbrev frames_left : List Frames
frames_left = record { base = 0x101000; length = 0x5000; unused = 0x3000 } ∷ []

push_back-Holds_example :
    Pushed buffer 0 8 two
      (5 ∷ 6 ∷ [])
      (omega arith)
      (omega arith)
      one_region-IsPmm
      two-Holds
      (omega arith)
      7
push_back-Holds_example =
    push_back-Holds buffer 0 8 two (5 ∷ 6 ∷ []) (omega arith) (omega arith) one_region-IsPmm
      two-Holds (omega arith) 7
      (inr (0x101000, frames_left, unfold give installed align_up in refl))
