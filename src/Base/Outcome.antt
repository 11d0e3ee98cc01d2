-- ===== src/Base/Outcome.antt =====
-- How a kernel routine ends: with a value, by an access that the language leaves undefined, or in
-- the endless loop behind `assert`, `todo` and `panic` (kernel/include/fmt/assert.h, panic.h).
use mathlib.Core.Path.{◌≡◌, subst}
use mathlib.Core.Bool.{Bool, true, false}
use mathlib.Core.Option.{Option, none, some}
use octiron.Base.Tests.{if◌then◌else◌}

pub data Run {ℓ} (A : Type ℓ) : Type ℓ where
  done : A → Run A
  fault : Run A
  halt : Run A

infixl 5 ◌>>=◌ ◌>>◌
abbrev pub ◌>>=◌ {ℓ κ} : {A : Type ℓ} {B : Type κ} → Run A → (A → Run B) → Run B
done a >>= k = k a
fault >>= k = fault
halt >>= k = halt

abbrev pub ◌>>◌ {ℓ} : {B : Type ℓ} → Run (Unit {0}) → Run B → Run B
m >> k = m >>= λ _. k

-- What holds of the value, if there is one.
pub data Ensures {A : Type 0} (P : A → Type 0) : Run A → Type 0 where
  returned : {a : A} → P a → Ensures P (done a)
  faulted : Ensures P fault
  halted : Ensures P halt

module _ {A B : Type 0} {P : B → Type 0} where
  pub Ensures-bind :
      {Q : A → Type 0} {r : Run A} {f : A → Run B}
      → Ensures Q r
      → ((a : A) → Q a → Ensures P (f a))
      → Ensures P (r >>= f)
  Ensures-bind (returned q) k = k _ q
  Ensures-bind faulted k = faulted
  Ensures-bind halted k = halted

  -- A step of which nothing is needed.
  pub Ensures-skip : (r : Run A) {f : A → Run B} → ((a : A) → Ensures P (f a)) → Ensures P (r >>= f)
  Ensures-skip (done a) k = k a
  Ensures-skip fault k = faulted
  Ensures-skip halt k = halted

module _ {A : Type 0} {P : A → Type 0} where
  pub Ensures-if :
      (b : Bool) {r q : Run A} → Ensures P r → Ensures P q → Ensures P (if b then r else q)
  Ensures-if true h k = h
  Ensures-if false h k = k

  of_done : (r : Run A) (a : A) → Ensures P r → r ≡ done a → P a
  of_done r a h e = out (subst (Ensures P) e h)
    where
      out : Ensures P (done a) → P a
      out (returned p) = p

  pub Ensures-done : {r : Run A} {a : A} → Ensures P r → r ≡ done a → P a
  Ensures-done {r = r} {a = a} h e = of_done r a h e

module _ {A B : Type 0} {P : B → Type 0} where
  pub Ensures-Option :
      (o : Option A) {r : Run B} {f : A → Run B}
      → Ensures P r
      → ((a : A) → Ensures P (f a))
      → Ensures P (elim o [ none ↦ r | some a ↦ f a ])
  Ensures-Option none h k = h
  Ensures-Option (some a) h k = k a

pub Ensures-Bool :
    {A : Type 0} {P : A → Type 0} (b : Bool) {r q : Run A}
    → Ensures P r
    → Ensures P q
    → Ensures P (elim b [ true ↦ r | false ↦ q ])
Ensures-Bool true h k = h
Ensures-Bool false h k = k
