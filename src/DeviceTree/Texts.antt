-- ===== src/DeviceTree/Texts.antt =====
-- The rewriting of `compatible`, whose value is a list of texts, one behind the other.
use octiron.Base.{
  ℕ, zero, suc, ◌+◌, ◌*◌, ◌/◌, ◌≤◌, ◌<◌, ◌≡◌, ◌≢◌, refl, ap, subst, done, arith, true, false, ltb,
  ◌==◌, List, [], ◌∷◌, length,
}
use octiron.Number.{Bytes}
use octiron.View.{View}
use octiron.Pmm.{Pmm}
use octiron.Bump.{BumpAlloc}
use octiron.Stack.{Ref}
use octiron.DeviceTree.{DeviceTree, Data}
use octiron.DeviceTree.Layout.{IsText}
use octiron.DeviceTree.Rounds.{IsText-from_null_term}
use octiron.DeviceTree.Rewrite.{count_zeros, split_texts, rewrite_compatible}
use octiron.DeviceTree.Cells.{held}
use octiron.DeviceTree.Grants.{Grants, Taken, take_granted}
use octiron.DeviceTree.Regs.{with_value}

-- The bytes from `p` on are these texts, each with its zero byte behind it.
abbrev pub AreTexts : (m : Bytes) (fuel p size : ℕ) → List View → Type 0
AreTexts m fuel p size [] = size ≡ 0
AreTexts m fuel p size (t ∷ texts) =
    IsText m fuel p t
    × ((rest : ℕ) × (size ≡ t.size + suc rest) × AreTexts m fuel (p + suc t.size) rest texts)

-- The value with those of the texts that the array holds, half of them.
abbrev pub held_texts : List View → Data
held_texts texts = Data.compatible (held (8 * (length texts + 1) / 16) texts)

module _ (hhdm_base text_fuel : ℕ) (m : Bytes) where
  count_zeros-skip :
      (n left p : ℕ)
      → ((i : ℕ) → i < n → m (p + i) ≢ 0)
      → count_zeros hhdm_base text_fuel m (n + left) p
        ≡ count_zeros hhdm_base text_fuel m left (p + n)
  unfolding count_zeros
  count_zeros-skip zero left p h =
      let sum : 0 + left ≡ left = omega arith in
      rw sum (ap (count_zeros hhdm_base text_fuel m left) {x = p} {y = p + 0} (omega arith))
  count_zeros-skip (suc n) left p h =
      let some_byte : (m p == 0) ≡ false =
        ground
          (arith, subst (λ q. m q ≢ 0) {x = p + 0} {y = p} (omega arith) (h 0 (omega arith))) in
      let sum : suc n + left ≡ suc (n + left) = omega arith in
      let more = count_zeros-skip n left (p + 1) λ i l.
        subst (λ q. m q ≢ 0) {x = p + suc i} {y = p + 1 + i} (omega arith)
          (h (suc i) (omega (arith, l))) in
      rw (sum, some_byte, more)
        (ap (count_zeros hhdm_base text_fuel m left) {x = p + 1 + n} {y = p + suc n} (omega arith))

  count_zeros-AreTexts :
      (p size : ℕ) (texts : List View)
      → AreTexts m text_fuel p size texts
      → count_zeros hhdm_base text_fuel m size p ≡ length texts
  unfolding count_zeros
  count_zeros-AreTexts p size [] h = rw h refl
  count_zeros-AreTexts p size (t ∷ texts) (text, (rest, e, more)) =
      let at_p = text.starts in
      let skip =
        count_zeros-skip t.size (suc rest) p
          λ i l. subst (λ q. m (q + i) ≢ 0) {x = t.ptr} {y = p} at_p (text.inside i l) in
      let end : (m (p + t.size) == 0) ≡ true =
        ground (arith, subst (λ q. m (q + t.size) ≡ 0) {x = t.ptr} {y = p} at_p text.ends) in
      let next : p + t.size + 1 ≡ p + suc t.size = omega arith in
      rw (e, skip, end, next, count_zeros-AreTexts (p + suc t.size) rest texts more) refl

  split_texts-AreTexts :
      (fuel i rest : ℕ) (v : View) (texts : List View)
      → AreTexts m text_fuel (v.ptr + i) rest texts
      → i + rest ≡ v.size
      → rest < fuel
      → split_texts hhdm_base text_fuel m fuel i v ≡ done texts
  unfolding split_texts
  split_texts-AreTexts zero i rest v texts h e l = elim l [ ]
  split_texts-AreTexts (suc fuel) i rest v [] h e l =
      let stop : ltb i v.size ≡ false = ground (arith, h, e) in rw (stop, split_texts) refl
  split_texts-AreTexts (suc fuel) i rest v (t ∷ texts) (text, (left, e', more)) e l =
      let go : ltb i v.size ≡ true = ground (arith, e, e') in
      let there : v.ptr + i + suc t.size ≡ v.ptr + (i + t.size + 1) = omega arith in
      rw
        (
          go,
          split_texts,
          IsText-from_null_term m text_fuel (v.ptr + i) t text,
          split_texts-AreTexts fuel (i + t.size + 1) left v texts
              (subst (λ q. AreTexts m text_fuel q left texts) there more) (omega (arith, e, e'))
              (omega (arith, e', l)),
        )
        refl

  module _ (most : ℕ) where
    rewrite_compatible_runs :
        (k : ℕ) (v : View) (texts : List View) (r : Ref) (d : DeviceTree)
        → AreTexts m text_fuel v.ptr v.size texts
        → (d.properties r).value ≡ Data.raw v
        → (one : Taken hhdm_base most k (8 * (length texts + 1)) 8 d)
        → rewrite_compatible hhdm_base text_fuel m r d
          ≡ done (with_value r (held_texts texts) one.pmm one.bump d)
    unfolding rewrite_compatible
    rewrite_compatible_runs k v texts r d h e one =
        let start =
          subst (λ q. AreTexts m text_fuel q v.size texts) {x = v.ptr} {y = v.ptr + 0} (omega arith)
            h in
        rw
          (
            e,
            count_zeros-AreTexts v.ptr v.size texts h,
            one.runs,
            one.there,
            split_texts-AreTexts (suc v.size) 0 v.size v texts start (omega arith) (omega arith),
          )
          refl

    length-le-size :
        (p size : ℕ) (texts : List View) → AreTexts m text_fuel p size texts → length texts ≤ size
    length-le-size p size [] h = omega arith
    length-le-size p size (t ∷ texts) (text, (rest, e, more)) =
        omega (arith, e, length-le-size (p + suc t.size) rest texts more)

    pub rewrite_compatible-texts :
        (k : ℕ) (v : View) (texts : List View) (r : Ref) (d : DeviceTree)
        → AreTexts m text_fuel v.ptr v.size texts
        → 8 * (v.size + 1) ≤ most
        → (d.properties r).value ≡ Data.raw v
        → Grants hhdm_base most (suc k) d.pmm d.bump
        → (s : Pmm) × (b : BumpAlloc) × (rewrite_compatible hhdm_base text_fuel m r d
            ≡ done (with_value r (held_texts texts) s b d))
          × Grants hhdm_base most k s b
    rewrite_compatible-texts k v texts r d h small e grants =
        let one : Taken hhdm_base most k (8 * (length texts + 1)) 8 d =
          take_granted hhdm_base most k (8 * (length texts + 1)) 3 d (omega arith)
            (omega (arith, length-le-size v.ptr v.size texts h, small)) (omega arith) grants in
        (one.pmm, one.bump, rewrite_compatible_runs k v texts r d h e one, one.grants)
