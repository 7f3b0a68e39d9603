-- ===== src/Proxy/Stream/Sends.antt =====
-- What code sends on a connection, whether it succeeds or stops early.
use nsproxy_rs.Base.{
  ℕ, ◌≡◌, refl, sym, ap, subst, ◌∙◌, inl, inr, Bool, true, false, [], ◌++◌, Bytes, Result, ok, err,
  length, take, drop, leb, Bool-cases, append_assoc, append-nil, take-append-drop, length-take,
  arith, if◌then◌else◌,
}
use nsproxy_rs.Proxy.Stream.{
  TcpStream, Failure, write_failed, read_failed, Io, then_io, return, fail, fail_if, write_all,
  read_exact,
}

abbrev pub IsPrefix : Bytes → Bytes → Type 0
IsPrefix xs ys = (zs : Bytes) × (xs ++ zs ≡ ys)

-- A run that started with `from` sent: it sends all of `full` and gives a value that satisfies `P`, or
-- stops with a part of `full` sent.
pub data Sends {A : Type 0} (from full : Bytes) (P : A → TcpStream → Type 0)
    : Result Failure A × TcpStream → Type 0 where
  stopped :
      (e : Failure) (t : TcpStream) (part : Bytes)
      → t.sent ≡ from ++ part
      → IsPrefix part full
      → Sends from full P (err e, t)
  done : (a : A) (t : TcpStream) → t.sent ≡ from ++ full → P a t → Sends from full P (ok a, t)

onto_sent :
    {B : Type 0} {Q : B → TcpStream → Type 0} (from full more : Bytes)
    {r : Result Failure B × TcpStream}
    → Sends (from ++ full) more Q r
    → Sends from (full ++ more) Q r
onto_sent from full more (stopped e t part h (zs, k)) =
    stopped e t (full ++ part) (h ∙ append_assoc from full part)
      (zs, append_assoc full part zs ∙ ap (◌++◌ full) k)
onto_sent from full more (done a t h q) = done a t (h ∙ append_assoc from full more) q

module _ {A B : Type 0} {P : A → TcpStream → Type 0} {Q : B → TcpStream → Type 0} where
  pub Sends-then :
      (from full more : Bytes) {r : Result Failure A × TcpStream} (k : A → Io B)
      → Sends from full P r
      → ((a : A) (t : TcpStream) → P a t → Sends t.sent more Q (k a t))
      → Sends from (full ++ more) Q (then_io r k)
  Sends-then from full more k (stopped e t part h (zs, f)) later =
      stopped e t part h (zs ++ more, sym (append_assoc part zs more) ∙ ap (λ b. b ++ more) f)
  Sends-then from full more k (done a t h p) later =
      onto_sent from full more (subst (λ b. Sends b more Q (k a t)) h (later a t p))

  -- A step that sends nothing.
  pub Sends-quiet :
      (from full : Bytes) {r : Result Failure A × TcpStream} (k : A → Io B)
      → Sends from [] P r
      → ((a : A) (t : TcpStream) → P a t → Sends t.sent full Q (k a t))
      → Sends from full Q (then_io r k)
  Sends-quiet from full k h later = Sends-then from [] full k h later

pub Sends-write_all :
    (bytes : Bytes) (s : TcpStream)
    → Sends s.sent bytes (λ _ t. t.input ≡ s.input) (write_all bytes s)
unfolding write_all
Sends-write_all bytes s = elim (Bool-cases (leb (length bytes) s.accepts)) [
  | inl e ↦ rw (write_all, e) (done tt _ refl refl)
  | inr e ↦
      rw (write_all, e)
        (stopped write_failed _ (take s.accepts bytes) refl
          (drop s.accepts bytes, take-append-drop s.accepts bytes))
]

-- What `read_exact` gives is the front of the input.
pub Sends-read_exact :
    (n : ℕ) (s : TcpStream)
    → Sends s.sent [] (λ bytes t. bytes ++ t.input ≡ s.input × (length bytes ≡ n)) (read_exact n s)
unfolding read_exact
Sends-read_exact n s = elim (Bool-cases (leb n (length s.input))) [
  | inl e ↦
      rw (read_exact, e)
        (done (take n s.input) _ (sym (append-nil s.sent))
          (take-append-drop n s.input, ground (arith, length-take n s.input)))
  | inr e ↦ rw (read_exact, e) (stopped read_failed _ [] (sym (append-nil s.sent)) ([], refl))
]

pub Sends-fail_if :
    (b : Bool) (e : Failure) (s : TcpStream)
    → Sends s.sent [] (λ _ t. (t ≡ s) × (b ≡ false)) (fail_if b e s)
Sends-fail_if true e s = stopped e s [] (sym (append-nil s.sent)) ([], refl)
Sends-fail_if false e s = done tt s (sym (append-nil s.sent)) (refl, refl)

pub Sends-fail :
    {A : Type 0} {P : A → TcpStream → Type 0} (full : Bytes) (e : Failure) (s : TcpStream)
    → Sends s.sent full P (fail e s)
Sends-fail full e s = stopped e s [] (sym (append-nil s.sent)) (full, refl)

pub Sends-return :
    {A : Type 0} {P : A → TcpStream → Type 0} (a : A) (s : TcpStream)
    → P a s
    → Sends s.sent [] P (return a s)
Sends-return a s p = done a s (sym (append-nil s.sent)) p

pub Sends-if :
    {A : Type 0} {P : A → TcpStream → Type 0} (from full : Bytes) (b : Bool) (m n : Io A)
    (s : TcpStream)
    → (b ≡ true → Sends from full P (m s))
    → (b ≡ false → Sends from full P (n s))
    → Sends from full P ((if b then m else n) s)
Sends-if from full true m n s h k = h refl
Sends-if from full false m n s h k = k refl

pub Sends-weaken :
    {A : Type 0} {P Q : A → TcpStream → Type 0} (from full : Bytes)
    {r : Result Failure A × TcpStream}
    → ((a : A) (t : TcpStream) → P a t → Q a t)
    → Sends from full P r
    → Sends from full Q r
Sends-weaken from full f (stopped e t part h p) = stopped e t part h p
Sends-weaken from full f (done a t h p) = done a t h (f a t p)

module _ {A B : Type 0} {P : A → TcpStream → Type 0} {Q : B → TcpStream → Type 0} where
  -- The last step that sends.
  pub Sends-last :
      (from full : Bytes) {r : Result Failure A × TcpStream} (k : A → Io B)
      → Sends from full P r
      → ((a : A) (t : TcpStream) → P a t → Sends t.sent [] Q (k a t))
      → Sends from full Q (then_io r k)
  Sends-last from full {r} k h later =
      subst (λ f. Sends from f Q (then_io r k)) (append-nil full)
        (Sends-then from full [] k h later)
