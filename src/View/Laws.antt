-- ===== src/View/Laws.antt =====
-- What the views' operations give.
use octiron.Base.{
  ℕ, zero, suc, ◌+◌, ◌-◌, min, ◌^◌, ◌≤◌, ◌<◌, ◌≡◌, ◌≢◌, ◌↔◌, ◌⊎◌, refl, ap, ◌==◌, arith, Bool-cases,
  inl, inr, subst, ==_iff,
}
use native.Mathlib.Decide.{dec_le}
use octiron.Base.Int.{pos, sub_ℕ-zero_iff}
use octiron.Number.{Bytes}
use octiron.Memory.Laws.{SameBytes}
use octiron.View.{
  View, view, sentinel, at, advance, subview, find, find_loop, compare, compare_loop,
}

-- `i` is the first place from `start` on with the value, or there is none and it is the sentinel.
abbrev pub IsFirst : View → ℕ → ℕ → Bytes → ℕ → Type 0
IsFirst v val start m i =
    ((start ≤ i) × (i < v.size) × (at v i m ≡ val) × ((j : ℕ) → start ≤ j → j < i → at v j m ≢ val))
    ⊎ ((i ≡ sentinel) × ((j : ℕ) → start ≤ j → j < v.size → at v j m ≢ val))

-- From the next place on, when this one does not hold the value.
not_from :
    (v : View) (val i : ℕ) (m : Bytes) (P : ℕ → Type 0)
    → at v i m ≢ val
    → ((j : ℕ) → i + 1 ≤ j → P j → at v j m ≢ val)
    → (j : ℕ) → i ≤ j
    → P j
    → at v j m ≢ val
not_from v val i m P miss d j h p = elim (dec_le (i + 1) j) [
  | yes l ↦ d j l p
  | no g ↦ subst (λ k. at v k m ≢ val) {x = i} {y = j} (omega arith) miss
]

IsFirst-behind :
    (v : View) (val i : ℕ) (m : Bytes) (r : ℕ)
    → at v i m ≢ val
    → IsFirst v val (i + 1) m r
    → IsFirst v val i m r
IsFirst-behind v val i m r miss (inl (a, b, c, d)) =
    inl (omega arith, b, c, not_from v val i m (λ j. j < r) miss d)
IsFirst-behind v val i m r miss (inr (a, d)) = inr (a, not_from v val i m (λ j. j < v.size) miss d)

find_loop-IsFirst :
    (left i : ℕ) (v : View) (val : ℕ) (m : Bytes)
    → (left ≡ v.size - i)
    → IsFirst v val i m (find_loop left i v val m)
unfolding find_loop at
find_loop-IsFirst zero i v val m e = inr (refl, λ j h l. absurd (omega arith))
find_loop-IsFirst (suc left) i v val m e = elim (Bool-cases (m (v.ptr + i) == val)) [
  | inl hit ↦ rw hit (
      inl (
        omega arith,
        omega arith,
        (==_iff (m (v.ptr + i)) val).0 hit,
        λ j h l. absurd (omega arith),
      ))
  | inr miss ↦ rw miss (
      IsFirst-behind v val i m _ (λ q. ground (arith, miss, q))
        (find_loop-IsFirst left (i + 1) v val m (omega arith)))
]

-- `find` returns the first index from `start` on that holds the value, or the sentinel if there is
-- none.
pub find-IsFirst :
    (v : View) (val start : ℕ) (m : Bytes) → IsFirst v val start m (find v val start m)
unfolding find
find-IsFirst v val start m = find_loop-IsFirst (v.size - start) start v val m refl

-- `subview` cuts the view down to what there is: it begins at `start` or at the end, and is as long
-- as was asked for or as what is left.
pub subview_lem :
    (v : View) (start len : ℕ)
    → v.size < 2 ^ 64
    → (subview v start len ≡ view (v.ptr + min start v.size) (min len (v.size - start)))
      × ((subview v start len).ptr + (subview v start len).size ≤ v.ptr + v.size)
unfolding subview
subview_lem v start len h = ground arith

-- `advance` by at least one byte leaves the size, so the view ends behind the original one's end,
-- and is not the rest of the view.
pub advance_overruns :
    (v : View) (n : ℕ)
    → 0 < n
    → v.size < 2 ^ 64
    → ((advance v n).ptr + (advance v n).size ≡ v.ptr + v.size + n)
      × (subview v n v.size ≢ advance v n)
unfolding advance subview
advance_overruns v n h l = (omega arith, λ e. ground arith)

compare_loop_iff :
    (l₁ l₂ p₁ p₂ : ℕ) (m : Bytes)
    → (compare_loop l₁ l₂ p₁ p₂ m ≡ pos 0) ↔ ((l₁ ≡ l₂) × SameBytes l₁ p₁ p₂ m)
unfolding compare_loop
compare_loop_iff zero zero p₁ p₂ m = (λ e. (refl, tt), λ s. refl)
compare_loop_iff zero (suc l₂) p₁ p₂ m =
    (λ e. absurd (ground (arith, e)), λ s. absurd (omega arith))
compare_loop_iff (suc l₁) zero p₁ p₂ m =
    (λ e. absurd (ground (arith, e)), λ s. absurd (omega arith))
compare_loop_iff (suc l₁) (suc l₂) p₁ p₂ m =
    let rest = compare_loop_iff l₁ l₂ (p₁ + 1) (p₂ + 1) m in
    elim (Bool-cases (m p₁ == m p₂)) [
      | inl e ↦ rw e (
        λ z. (ap suc (rest.0 z).0, ((==_iff (m p₁) (m p₂)).0 e, (rest.0 z).1)),
        λ s. rest.1 (omega arith, s.1.1),
      )
      | inr e ↦ rw e (
        λ z. absurd (ground (arith, (sub_ℕ-zero_iff (m p₁) (m p₂)).0 z)),
        λ s. absurd (ground (arith, s.1.0)),
      )
    ]

-- `compare` returns 0 exactly if the views have the same size and the same bytes.
pub compare_iff :
    (s₁ s₂ : View) (m : Bytes)
    → (compare s₁ s₂ m ≡ pos 0) ↔ ((s₁.size ≡ s₂.size) × SameBytes s₁.size s₁.ptr s₂.ptr m)
unfolding compare
compare_iff s₁ s₂ m = compare_loop_iff s₁.size s₂.size s₁.ptr s₂.ptr m
