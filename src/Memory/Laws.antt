-- ===== src/Memory/Laws.antt =====
-- What the byte routines leave in memory and return.
use octiron.Base.{
  ℕ, zero, suc, ◌+◌, ◌-◌, ◌≤◌, ◌<◌, ◌≡◌, ◌≢◌, ◌↔◌, ◌⊎◌, ◌∙◌, refl, ap, sym, false, subst, ==_iff,
  ◌&&◌, leb, ltb, ◌==◌, if◌then◌else◌, done, arith, Bool-cases, inl, inr,
}
use octiron.Base.Int.{pos, sub_ℕ, sub_ℕ-zero_iff}
use octiron.Number.{Bytes}
use octiron.Memory.{store, fill, fill_loop, copy, copy_loop, cmp, cmp_loop, strlen, strlen_loop}

fill_loop_lem :
    (left i dest c : ℕ) (m : Bytes) (p : ℕ)
    → fill_loop left i dest c m p ≡ (if leb (dest + i) p && ltb p (dest + i + left) then c else m p)
unfolding fill_loop store
fill_loop_lem zero i dest c m p = ground arith
fill_loop_lem (suc left) i dest c m p =
    fill_loop_lem left (i + 1) dest c (store m (dest + i) c) p ∙ ground arith

-- `fill` sets exactly the `count` bytes from `dest` on.
pub fill_lem :
    (dest c count : ℕ) (m : Bytes) (p : ℕ)
    → fill dest c count m p ≡ (if leb dest p && ltb p (dest + count) then c else m p)
unfolding fill
fill_lem dest c count m p = fill_loop_lem count 0 dest c m p ∙ ground arith

copy_loop_lem :
    (left i src dst : ℕ) (m : Bytes) (p : ℕ)
    → (dst ≤ src) ⊎ (src + i + left ≤ dst)
    → copy_loop left i src dst m p
      ≡ (if leb (dst + i) p && ltb p (dst + i + left) then m (src + (p - dst)) else m p)
unfolding copy_loop store
copy_loop_lem zero i src dst m p h = ground arith
copy_loop_lem (suc left) i src dst m p h =
    copy_loop_lem left (i + 1) src dst (store m (dst + i) (m (src + i))) p (ground arith)
    ∙ ground arith

-- `copy` moves `count` bytes and writes nothing else, if the destination does not begin inside the
-- source; it may end there.
pub copy_lem :
    (src dst count : ℕ) (m : Bytes) (p : ℕ)
    → (dst ≤ src) ⊎ (src + count ≤ dst)
    → copy src dst count m p
      ≡ (if leb dst p && ltb p (dst + count) then m (src + (p - dst)) else m p)
unfolding copy
copy_lem src dst count m p h = copy_loop_lem count 0 src dst m p (ground arith) ∙ ground arith

-- The bytes at two addresses agree.
abbrev pub SameBytes : (count lhs rhs : ℕ) → Bytes → Type 0
SameBytes zero lhs rhs m = Unit {0}
SameBytes (suc count) lhs rhs m = (m lhs ≡ m rhs) × SameBytes count (lhs + 1) (rhs + 1) m

cmp_loop-suc :
    (count lhs rhs : ℕ) (m : Bytes)
    → cmp_loop (suc (suc count)) lhs rhs m ≡ (
        if m lhs == m rhs
        then cmp_loop (suc count) (lhs + 1) (rhs + 1) m
        else sub_ℕ (m lhs) (m rhs))
unfolding cmp_loop
cmp_loop-suc count lhs rhs m = rw not-zero
  where
    not-zero : (suc count == 0) ≡ false
    not-zero = ground arith

cmp_loop-one : (lhs rhs : ℕ) (m : Bytes) → cmp_loop 1 lhs rhs m ≡ sub_ℕ (m lhs) (m rhs)
unfolding cmp_loop
cmp_loop-one lhs rhs m = refl

cmp_loop-zero : (lhs rhs : ℕ) (m : Bytes) → cmp_loop 0 lhs rhs m ≡ pos 0
unfolding cmp_loop
cmp_loop-zero lhs rhs m = refl

cmp_loop_iff :
    (count lhs rhs : ℕ) (m : Bytes) → (cmp_loop count lhs rhs m ≡ pos 0) ↔ SameBytes count lhs rhs m
cmp_loop_iff zero lhs rhs m = (λ e. tt, λ s. cmp_loop-zero lhs rhs m)
cmp_loop_iff (suc zero) lhs rhs m = (
  λ e. ((sub_ℕ-zero_iff (m lhs) (m rhs)).0 (sym (cmp_loop-one lhs rhs m) ∙ e), tt),
  λ s. cmp_loop-one lhs rhs m ∙ (sub_ℕ-zero_iff (m lhs) (m rhs)).1 s.0,
)
cmp_loop_iff (suc (suc count)) lhs rhs m =
    let rest = cmp_loop_iff (suc count) (lhs + 1) (rhs + 1) m in
    rw (cmp_loop-suc count lhs rhs m) (elim (Bool-cases (m lhs == m rhs)) [
      | inl e ↦ rw e (λ z. ((==_iff (m lhs) (m rhs)).0 e, rest.0 z), λ s. rest.1 s.1)
      | inr e ↦ rw e (
        λ z. absurd (ground (arith, (sub_ℕ-zero_iff (m lhs) (m rhs)).0 z)),
        λ s. absurd (ground (arith, s.0)),
      )
    ])

SameBytes-self : (count p : ℕ) (m : Bytes) → SameBytes count p p m
SameBytes-self zero p m = tt
SameBytes-self (suc count) p m = (refl, SameBytes-self count (p + 1) m)

-- `cmp` returns 0 exactly if the `count` bytes at the two addresses agree.
cmp_iff :
    (lhs rhs count : ℕ) (m : Bytes) → (cmp lhs rhs count m ≡ pos 0) ↔ SameBytes count lhs rhs m
unfolding cmp
cmp_iff lhs rhs zero m = (λ e. tt, λ s. ground arith)
cmp_iff lhs rhs (suc count) m = elim (Bool-cases (lhs == rhs)) [
  | inl e ↦ rw e (
    λ z.
        subst (λ q. SameBytes (suc count) lhs q m) ((==_iff lhs rhs).0 e)
          (SameBytes-self (suc count) lhs m),
    λ s. refl,
  )
  | inr e ↦
      let some_left : (suc count == 0) ≡ false = ground arith in
      rw (e, some_left) (cmp_loop_iff (suc count) lhs rhs m)
]

strlen_loop_lem :
    (fuel k len src : ℕ) (m : Bytes)
    → k < fuel
    → m (src + (len + k)) ≡ 0
    → ((i : ℕ) → i < k → m (src + (len + i)) ≢ 0)
    → strlen_loop fuel len src m ≡ done (len + k)
unfolding strlen_loop
strlen_loop_lem zero k len src m h z before = elim h [ ]
strlen_loop_lem (suc fuel) zero len src m h z before = ground arith
strlen_loop_lem (suc fuel) (suc k) len src m h z before =
    let here : m (src + len) ≢ 0 =
      subst (λ q. m (src + q) ≢ 0) {x = len + 0} {y = len} (omega arith) (before 0 (omega arith)) in
    let rest : strlen_loop fuel (len + 1) src m ≡ done (len + 1 + k) =
      strlen_loop_lem fuel k (len + 1) src m (omega arith)
        (ap (λ q. m (src + q)) {x = len + 1 + k} {y = len + suc k} (omega arith) ∙ z)
        (λ i l.
          subst (λ q. m (src + q) ≢ 0) {x = len + suc i} {y = len + 1 + i} (omega arith)
            (before (suc i) (omega arith))) in
    ground (arith, here, rest)

-- `strlen` returns the place of the first zero byte, given more rounds than that.
pub strlen_lem :
    (fuel n src : ℕ) (m : Bytes)
    → n < fuel
    → m (src + n) ≡ 0
    → ((i : ℕ) → i < n → m (src + i) ≢ 0)
    → strlen fuel src m ≡ done n
unfolding strlen
strlen_lem fuel n src m h z before =
    strlen_loop_lem fuel n 0 src m h (ap (λ q. m (src + q)) {x = 0 + n} {y = n} (omega arith) ∙ z)
      (λ i l. subst (λ q. m (src + q) ≢ 0) {x = i} {y = 0 + i} (omega arith) (before i l))
    ∙ ap done (omega arith)
