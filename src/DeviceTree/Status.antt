-- ===== src/DeviceTree/Status.antt =====
-- `status` properties as the specification of device trees has them: texts with a zero byte at the end.
use Prim.Native.String.{String}
use octiron.Base.{
  ℕ, zero, suc, ◌+◌, ◌≡◌, ◌≢◌, ◌⊎◌, ◌∙◌, inl, inr, refl, ap, true, false, ◌==◌, List, [], ◌∷◌, All,
  arith, Bool-cases, ==_iff,
}
use octiron.Base.Int.{ℤ, pos, negsuc, sub_ℕ-zero_iff}
use octiron.Number.{Bytes}
use octiron.View.{View, advance}
use octiron.DeviceTree.{Data, DeviceStatus}
use octiron.DeviceTree.Names.{codes, compare_text, is_zero, is_text}
use octiron.DeviceTree.Rewrite.{status_of}

is_zero-pos : (z : ℤ) → is_zero z ≡ true → z ≡ pos 0
is_zero-pos (pos zero) e = refl
is_zero-pos (pos (suc n)) e = cc
is_zero-pos (negsuc n) e = cc

first_same :
    (c : ℕ) (cs : List ℕ) (left p : ℕ) (m : Bytes)
    → compare_text (c ∷ cs) (suc left) p m ≡ pos 0
    → c ≡ m p
unfolding compare_text
first_same c cs left p m z = elim (Bool-cases (c == m p)) [
  | inl hit ↦ (==_iff c (m p)).0 hit
  | inr miss ↦ (sub_ℕ-zero_iff c (m p)).0 (rw (miss, compare_text) at z)
]

-- A text without zero bytes that compares equal to a view agrees with its last byte.
text_ends :
    (cs : List ℕ) (left k p : ℕ) (m : Bytes)
    → All (λ c. c ≢ 0) cs
    → left ≡ suc k
    → compare_text cs left p m ≡ pos 0
    → m (p + k) ≢ 0
unfolding compare_text
text_ends [] left k p m text e z = absurd (ground (arith, e, z))
text_ends (c ∷ cs) zero k p m text e z = absurd (omega (arith, e))
text_ends (c ∷ cs) (suc left) zero p m text e z =
    let same : c ≡ m p = first_same c cs left p m z in
    λ q. text.0 (same ∙ ap m {x = p} {y = p + 0} (omega arith) ∙ q)
text_ends (c ∷ cs) (suc left) (suc k) p m text e z =
    let hit : (c == m p) ≡ true = (==_iff c (m p)).1 (first_same c cs left p m z) in
    λ q.
      text_ends cs left k (p + 1) m text.1 (omega (arith, e)) (rw (hit, compare_text) at z)
        (ap m {x = p + 1 + k} {y = p + suc k} (omega arith) ∙ q)

not_text :
    (s : String) (v : View) (k : ℕ) (m : Bytes)
    → All (λ c. c ≢ 0) (codes s)
    → v.size ≡ suc k
    → m (v.ptr + k) ≡ 0
    → is_text s v m ≡ false
unfolding is_text
not_text s v k m text e z = elim (Bool-cases (is_text s v m)) [
  | inr other ↦ other
  | inl found ↦ absurd (text_ends (codes s) v.size k v.ptr m text e (is_zero-pos _ found) z)
]

-- A status whose text ends in a zero byte is not recognised as any of the four plain ones: the
-- literals have no zero byte. It is left alone, or taken for a failure with a reason.
pub status_of_terminated :
    (hhdm_base text_fuel : ℕ) (m : Bytes) (v : View) (k : ℕ)
    → v.size ≡ suc k
    → m (v.ptr + k) ≡ 0
    → (status_of hhdm_base text_fuel m v ≡ Data.status_unset v)
      ⊎ (status_of hhdm_base text_fuel m v
          ≡ Data.status DeviceStatus.fail_with_reason (advance v 5))
unfolding status_of
status_of_terminated hhdm_base text_fuel m v k e z =
    rw
      (
        not_text "okay" v k m (omega arith) e z,
        not_text "disabled" v k m (omega arith) e z,
        not_text "reserved" v k m (omega arith) e z,
        not_text "fail" v k m (omega arith) e z,
      )
      (elim (Bool-cases (is_text "fail-" (advance v 5) m)) [
        | inl found ↦ inr (rw found refl)
        | inr other ↦ inl (rw other refl)
      ])
