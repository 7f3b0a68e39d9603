-- ===== src/Base/Outcome.antt =====
-- Results of code that fails with an error value, and of code that may panic.
use mathlib.Core.Path.{◌≡◌, refl, subst}
use mathlib.Core.Logic.{◌⊎◌, inl, inr}
use mathlib.Core.Bool.{Bool, true, false}
use mathlib.Core.Option.{Option, none, some}
use nsproxy_rs.Base.Tests.{if◌then◌else◌}

-- `Result`, over the component's own errors.
pub data Result {ℓ} (E A : Type ℓ) : Type ℓ where
  err : E → Result E A
  ok : A → Result E A

-- `with_context` on an option.
abbrev pub or_fail {ℓ} : {E A : Type ℓ} → Option A → E → Result E A
or_fail none e = err e
or_fail (some a) e = ok a

-- The `bail!` that a test guards.
abbrev pub guard {ℓ} : {E : Type ℓ} → Bool → E → Result E (Unit {ℓ})
guard false failure = err failure
guard true failure = ok tt

infixl 5 ◌>>=◌ ◌>>◌
abbrev pub ◌>>=◌ {ℓ} : {E A B : Type ℓ} → Result E A → (A → Result E B) → Result E B
err failure >>= next = err failure
ok value >>= next = next value

pub >>=-eq-ok {ℓ} :
    {E A B : Type ℓ} (first : Result E A) (next : A → Result E B) {b : B}
    → (first >>= next) ≡ ok b
    → (a : A) × (first ≡ ok a) × (next a ≡ ok b)
>>=-eq-ok (err failure) next h = cc
>>=-eq-ok (ok value) next h = (value, refl, h)

abbrev pub ◌>>◌ {ℓ} : {E B : Type ℓ} → Result E (Unit {ℓ}) → Result E B → Result E B
first >> second = first >>= λ done. second

-- A run that returns, panics (an index out of range), or runs out of the model's fuel.
pub data Exec {ℓ} (A : Type ℓ) : Type ℓ where
  ret : A → Exec A
  panic : Exec A
  out_of_fuel : Exec A

abbrev pub then_exec {ℓ κ} : {A : Type ℓ} {B : Type κ} → Exec A → (A → Exec B) → Exec B
then_exec (ret a) f = f a
then_exec panic f = panic
then_exec out_of_fuel f = out_of_fuel

-- An indexing expression: `xs[i]` panics out of range.
abbrev pub index {ℓ} : {A : Type ℓ} → Option A → Exec A
index none = panic
index (some a) = ret a

pub or_fail-eq-ok {ℓ} :
    {E A : Type ℓ} (o : Option A) (e : E) {a : A} → or_fail o e ≡ ok a → o ≡ some a
or_fail-eq-ok none e h = cc
or_fail-eq-ok (some a) e h = cc

pub guard-eq-ok {ℓ} : {E : Type ℓ} (b : Bool) (e : E) → guard b e ≡ ok tt → b ≡ true
guard-eq-ok true e h = refl
guard-eq-ok false e h = cc

-- A value that the code returns satisfies `P`.
pub data Ensures {E A : Type 0} (P : A → Type 0) : Result E A → Type 0 where
  failed : (e : E) → Ensures P (err e)
  holds : {a : A} → P a → Ensures P (ok a)

module _ {E A B : Type 0} {Q : B → Type 0} where
  pub Ensures-bind :
      (m : Result E A) (f : A → Result E B)
      → ((a : A) → m ≡ ok a → Ensures Q (f a))
      → Ensures Q (m >>= f)
  Ensures-bind (ok a) f k = k a refl
  Ensures-bind (err e) f k = failed e

pub Ensures-if :
    {E A : Type 0} {P : A → Type 0} (b : Bool) {m n : Result E A}
    → (b ≡ true → Ensures P m)
    → (b ≡ false → Ensures P n)
    → Ensures P (if b then m else n)
Ensures-if true h k = h refl
Ensures-if false h k = k refl

pub Ensures-ok :
    {E A : Type 0} {P : A → Type 0} {m : Result E A} {a : A} → Ensures P m → m ≡ ok a → P a
Ensures-ok (failed e) h = cc
Ensures-ok {P} (holds p) h = subst P (cc) p

pub Result-cases {ℓ} :
    {E A : Type ℓ} (m : Result E A) → ((e : E) × (m ≡ err e)) ⊎ ((a : A) × (m ≡ ok a))
Result-cases (ok a) = inr (a, refl)
Result-cases (err e) = inl (e, refl)

pub then_exec-eq-ret {ℓ} :
    {A B : Type ℓ} (m : Exec A) (f : A → Exec B) {b : B}
    → then_exec m f ≡ ret b
    → (a : A) × (m ≡ ret a) × (f a ≡ ret b)
then_exec-eq-ret (ret a) f h = (a, refl, h)
then_exec-eq-ret panic f h = cc
then_exec-eq-ret out_of_fuel f h = cc
