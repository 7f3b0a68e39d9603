-- ===== src/Process/Pigeonhole.antt =====
-- Distinct numbers below a bound are no more than the bound.
use nsproxy_rs.Base.{
  ℕ, zero, suc, ◌≤◌, ◌<◌, ◌≢◌, refl, sym, ◌∙◌, subst, inl, inr, Bool-cases, List, [], ◌∷◌, length,
  ◌==◌, ==_iff, if◌then◌else◌, arith,
}
use nsproxy_rs.Process.Tree.{In, IsDistinct}

without : ℕ → List ℕ → List ℕ
without n [] = []
without n (x ∷ xs) = if x == n then xs else x ∷ without n xs

length-without : (n : ℕ) (xs : List ℕ) → length xs ≤ suc (length (without n xs))
unfolding without
length-without n [] = omega arith
length-without n (x ∷ xs) = ground (arith, length-without n xs)

In-without : (n x : ℕ) (xs : List ℕ) → In x (without n xs) → In x xs
unfolding without In
In-without n x [] i = i
In-without n x (y ∷ ys) i = elim (Bool-cases (y == n)) [
  | inl e ↦ inr (rw e at i)
  | inr e ↦
      let j : In x (y ∷ without n ys) = rw e at i in
      elim j [ inl q ↦ inl q | inr k ↦ inr (In-without n x ys k) ]
]

IsDistinct-without : (n : ℕ) (xs : List ℕ) → IsDistinct xs → IsDistinct (without n xs)
unfolding without IsDistinct
IsDistinct-without n [] d = tt
IsDistinct-without n (y ∷ ys) d = elim (Bool-cases (y == n)) [
  | inl e ↦ rw e d.1
  | inr e ↦ rw e ((λ i. d.0 (In-without n y ys i)), IsDistinct-without n ys d.1)
]

absent-without : (n x : ℕ) (xs : List ℕ) → IsDistinct xs → In x (without n xs) → x ≢ n
unfolding without IsDistinct In
absent-without n x [] d i q = i
absent-without n x (y ∷ ys) d i q = elim (Bool-cases (y == n)) [
  | inl e ↦ let j : In x ys = rw e at i in d.0 (subst (λ z. In z ys) (q ∙ sym ((==_iff y n).0 e)) j)
  | inr e ↦
      let j : In x (y ∷ without n ys) = rw e at i in
      elim j [ inl r ↦ ground (arith, e, r, q) | inr k ↦ absent-without n x ys d.1 k q ]
]

pub pigeonhole : (n : ℕ) (xs : List ℕ) → IsDistinct xs → ((x : ℕ) → In x xs → x < n) → length xs ≤ n
unfolding In
pigeonhole zero [] d small = omega arith
pigeonhole zero (x ∷ xs) d small = absurd (omega (arith, small x (inl refl)))
pigeonhole (suc n) xs d small = omega (
  arith,
  length-without n xs,
  pigeonhole n (without n xs) (IsDistinct-without n xs d) (λ x i.
      let below = small x (In-without n x xs i) in
      let other = absent-without n x xs d i in grind arith),
)
