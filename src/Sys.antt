-- ===== src/Sys.antt =====
-- Code that makes system calls: what the kernel answers depends on the calls made before, and every
-- call is recorded with its answer, the newest first.
use nsproxy_rs.Base.{ℕ, ◌≡◌, refl, ◌⊎◌, inl, inr, List, ◌∷◌, Bytes, Result, ok, err}

-- The value that the call returns with the bytes that it hands out (the name of a temporary file,
-- say), or the error number.
pub data Answer : Type 0 where
  done : ℕ → Bytes → Answer
  failed : ℕ → Answer

pub Answer-cases :
    (a : Answer) → ((n : ℕ) × (bytes : Bytes) × (a ≡ done n bytes)) ⊎ ((e : ℕ) × (a ≡ failed e))
Answer-cases (done n bytes) = inl (n, bytes, refl)
Answer-cases (failed e) = inr (e, refl)

abbrev pub Trace : Type 0 → Type 0
Trace C = List (C × Answer)

abbrev pub Kernel : Type 0 → Type 0
Kernel C = Trace C → C → Answer

-- A function that returns `Result<A>`, with errors `E` and calls `C`.
abbrev pub Sys : Type 0 → Type 0 → Type 0 → Type 0
Sys C E A = Kernel C → Trace C → Result E A × Trace C

-- The cases of `?`: an error leaves the function.
abbrev pub step :
    {C E A B : Type 0} → Result E A × Trace C → Kernel C → (A → Sys C E B) → Result E B × Trace C
step (ok a, t) k f = f a k t
step (err e, t) k f = (err e, t)

infixl 5 ◌>>=◌ ◌>>◌
abbrev pub ◌>>=◌ : {C E A B : Type 0} → Sys C E A → (A → Sys C E B) → Sys C E B
◌>>=◌ m f k t = step (m k t) k f

abbrev pub ◌>>◌ : {C E B : Type 0} → Sys C E (Unit {0}) → Sys C E B → Sys C E B
m >> next = m >>= λ done. next

abbrev pub pure : {C E A : Type 0} → A → Sys C E A
pure a k t = (ok a, t)

abbrev pub bail : {C E A : Type 0} → E → Sys C E A
bail e k t = (err e, t)

-- A call whose answer the code looks at.
abbrev pub perform : {C E : Type 0} → C → Sys C E Answer
perform c k t = (ok (k t c), (c, k t c) ∷ t)

abbrev pub checked : {C E : Type 0} → (ℕ → E) → Answer → Sys C E ℕ
checked e (done n bytes) = pure n
checked e (failed errno) = bail (e errno)

-- A call with `?` behind it: `e` is the context of the error.
abbrev pub attempt : {C E : Type 0} → C → (ℕ → E) → Sys C E ℕ
attempt c e = perform c >>= checked e

-- The same where the value is not used.
abbrev pub require : {C E : Type 0} → C → (ℕ → E) → Sys C E (Unit {0})
require c e = attempt c e >>= λ n. pure tt

-- A call whose answer is ignored: `let _ = ...`.
abbrev pub ignore : {C E : Type 0} → C → Sys C E (Unit {0})
ignore c = perform c >>= λ answer. pure tt

-- What holds after a run: `P` of the value and the trace on success, `F` of the trace on failure.
abbrev pub Post :
    {C E A : Type 0} → (A → Trace C → Type 0) → (Trace C → Type 0) → Result E A × Trace C → Type 0
Post P F (ok a, t) = P a t
Post P F (err e, t) = F t

module _ {C E A B : Type 0} (P : B → Trace C → Type 0) (F : Trace C → Type 0) where
  pub Post-bind :
      (Q : A → Trace C → Type 0) (k : Kernel C) (r : Result E A × Trace C) (f : A → Sys C E B)
      → Post Q F r
      → ((a : A) (t : Trace C) → Q a t → Post P F (f a k t))
      → Post P F (step r k f)
  Post-bind Q k (ok a, t) f h next = next a t h
  Post-bind Q k (err e, t) f h next = h

pub Post-weaken :
    {C E A : Type 0} (Q : A → Trace C → Type 0) (F G : Trace C → Type 0) (r : Result E A × Trace C)
    → ((t : Trace C) → F t → G t)
    → Post Q F r
    → Post Q G r
Post-weaken Q F G (ok a, t) weaker h = h
Post-weaken Q F G (err e, t) weaker h = weaker t h

pub Post-map :
    {C E A : Type 0} (P Q : A → Trace C → Type 0) (F G : Trace C → Type 0)
    (r : Result E A × Trace C)
    → ((a : A) (t : Trace C) → P a t → Q a t)
    → ((t : Trace C) → F t → G t)
    → Post P F r
    → Post Q G r
Post-map P Q F G (ok a, t) value error h = value a t h
Post-map P Q F G (err e, t) value error h = error t h

pub Post-both :
    {C E A : Type 0} (P Q : A → Trace C → Type 0) (F G : Trace C → Type 0)
    (r : Result E A × Trace C)
    → Post P F r
    → Post Q G r
    → Post (λ a t. P a t × Q a t) (λ t. F t × G t) r
Post-both P Q F G (ok a, t) p q = (p, q)
Post-both P Q F G (err e, t) p q = (p, q)

-- A run that starts with `I` ends with it, whether it succeeds or fails.
abbrev pub Keeps : {C E A : Type 0} → (Trace C → Type 0) → Kernel C → Sys C E A → Type 0
Keeps I k m = (t : Trace _) → I t → Post (λ a. I) I (m k t)

module _ {C E A B : Type 0} (I : Trace C → Type 0) (k : Kernel C) where
  pub Keeps-bind :
      (m : Sys C E A) (f : A → Sys C E B)
      → Keeps I k m
      → ((a : A) → Keeps I k (f a))
      → Keeps I k (m >>= f)
  Keeps-bind m f h next t start = Post-bind (λ b. I) I (λ a. I) k (m k t) f (h t start) next
