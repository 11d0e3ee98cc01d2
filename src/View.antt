-- ===== src/View.antt =====
-- kernel/include/types/byte_view.h and str_view.h: a pointer and a size. The two classes differ in
-- the element type only, but for `advance` and `shorten`, where the one of `byte_view` also changes
-- the view itself, to the same value that it returns.
mod Tests
pub mod Laws
use octiron.Base.{ℕ, zero, suc, ◌+◌, ◌-◌, ◌^◌, Bool, ltb, ◌==◌, if◌then◌else◌, Run, done, ◌>>=◌}
use octiron.Base.Int.{ℤ, sub_ℕ}
use octiron.Number.{Bytes, u64, sub64, num_min}
use octiron.Memory.{strlen}

pub record View : Type 0 where
  pub ptr : ℕ
  pub size : ℕ

abbrev pub view : ℕ → ℕ → View
view p n = record { ptr = p; size = n }

-- `static_cast<size_t>(-1)`.
abbrev pub sentinel : ℕ
sentinel = 2 ^ 64 - 1

-- `operator[]`, which checks nothing.
unfoldable pub at : View → ℕ → Bytes → ℕ
at v i m = m (v.ptr + i)

-- Moves the start; the size stays.
unfoldable pub advance : View → ℕ → View
advance v n = view (v.ptr + n) v.size

unfoldable pub shorten : View → ℕ → View
shorten v n = view v.ptr (sub64 v.size n)

-- `subview` and `substr`.
unfoldable pub subview : View → ℕ → ℕ → View
unfolding num_min
subview v start len =
    if ltb v.size start
    then view (v.ptr + v.size) 0
    else view (v.ptr + start) (num_min len (sub64 v.size start))

-- The loop from index `i` on, with `size - i` rounds left.
unfoldable pub find_loop : (left i : ℕ) → View → ℕ → Bytes → ℕ
find_loop zero i v val m = sentinel
find_loop (suc left) i v val m =
    let rest = find_loop left (i + 1) v val m in if m (v.ptr + i) == val then i else rest

unfoldable pub find : View → ℕ → ℕ → Bytes → ℕ
unfolding find_loop
find v val start m = find_loop (v.size - start) start v val m

-- Both sizes left, and the two positions. Sizes are below 2 ^ 63, so their difference does not
-- overflow.
-- For sizes below 2 ^ 63, whose difference does not overflow.
unfoldable pub compare_loop : (left₁ left₂ p₁ p₂ : ℕ) → Bytes → ℤ
compare_loop zero left₂ p₁ p₂ m = sub_ℕ 0 left₂
compare_loop (suc left₁) zero p₁ p₂ m = sub_ℕ (suc left₁) 0
compare_loop (suc left₁) (suc left₂) p₁ p₂ m =
    let rest = compare_loop left₁ left₂ (p₁ + 1) (p₂ + 1) m in
    if m p₁ == m p₂ then rest else sub_ℕ (m p₁) (m p₂)

unfoldable pub compare : View → View → Bytes → ℤ
unfolding compare_loop
compare s₁ s₂ m = compare_loop s₁.size s₂.size s₁.ptr s₂.ptr m

unfoldable pub from_null_term : (fuel str : ℕ) → Bytes → Run View
unfolding strlen
from_null_term fuel str m = do n ← strlen fuel str m; done (view str n)

unfoldable pub from_byte_view : View → View
from_byte_view bv = view bv.ptr bv.size
