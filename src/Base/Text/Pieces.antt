-- ===== src/Base/Text/Pieces.antt =====
-- The pieces of a split text.
use nsproxy_rs.Base.Tests.{◌==◌, Bool-cases, Option-cases}
use nsproxy_rs.Base.Keys.{nat_beq_iff}
use nsproxy_rs.Base.Lists.{Bytes, All}
use nsproxy_rs.Base.Text.{split, join, contains, split_once}
use Prim.Native.Nat.{ℕ}
use mathlib.Core.Path.{◌≡◌, refl, sym, ap, subst, ◌∙◌}
use mathlib.Core.Logic.{inl, inr}
use mathlib.Core.Bool.{false}
use mathlib.Core.Option.{Option, none, some}
use mathlib.Core.List.{List, [], ◌∷◌, ◌++◌}
use native.Mathlib.Omega.{arith}

split_cons : (c : ℕ) (s : Bytes) → (p : Bytes) × (ps : List Bytes) × (split c s ≡ p ∷ ps)
unfolding split
split_cons c [] = ([], [], refl)
split_cons c (b ∷ bs) = elim (Bool-cases (b == c)) [
  | inl e ↦ ([], split c bs, rw e)
  | inr e ↦ let (p, ps, h) = split_cons c bs in (b ∷ p, ps, rw (e, h))
]

join-onto_first :
    (c b : ℕ) (p : Bytes) (ps : List Bytes) → join c ((b ∷ p) ∷ ps) ≡ b ∷ join c (p ∷ ps)
unfolding join
join-onto_first c b p [] = refl
join-onto_first c b p (q ∷ ps) = refl

pub join-split : (c : ℕ) (s : Bytes) → join c (split c s) ≡ s
unfolding split join
join-split c [] = refl
join-split c (b ∷ bs) =
    let (p, ps, h) = split_cons c bs in
    elim (Bool-cases (b == c)) [
      | inl e ↦ ground (arith, h, join-split c bs)
      | inr e ↦ ground (arith, h, join-split c bs, join-onto_first c b p ps)
    ]

pub split-All : (c : ℕ) (s : Bytes) → All (λ p. contains c p ≡ false) (split c s)
unfolding split contains
split-All c [] = (refl, tt)
split-All c (b ∷ bs) =
    let (p, ps, h) = split_cons c bs in
    let ih = split-All c bs in
    elim (Bool-cases (b == c)) [ inl e ↦ rw e (refl, ih) | inr e ↦ ground (arith, h, ih) ]

-- Two pieces: the text around its only separator.
pub split_two :
    (c : ℕ) (s p q : Bytes)
    → split c s ≡ p ∷ q ∷ []
    → (s ≡ p ++ c ∷ q) × (contains c p ≡ false) × (contains c q ≡ false)
unfolding join
split_two c s p q h =
    let pieces = subst (All (λ x. contains c x ≡ false)) h (split-All c s) in
    (sym (join-split c s) ∙ ap (join c) h, pieces.0, pieces.1.0)

pub split_once-eq-none : (c : ℕ) (s : Bytes) → split_once c s ≡ none → contains c s ≡ false
unfolding split_once contains
split_once-eq-none c [] h = refl
split_once-eq-none c (b ∷ bs) h = elim (Bool-cases (b == c)) [
  | inl e ↦ absurd (some_none (rw e at h))
  | inr e ↦ elim (Option-cases (split_once c bs)) [
    | inl n ↦ rw (e, split_once-eq-none c bs n) refl
    | inr (p, f) ↦ absurd (some_none (rw (e, f) at h))
  ]
]
  where
    some_none : {p : Bytes × Bytes} → ¬ Path (Option (Bytes × Bytes)) (some p) none
    some_none e = cc

same_pair :
    {x y u v : Bytes}
    → Path (Option (Bytes × Bytes)) (some (x, y)) (some (u, v))
    → (x ≡ u) × (y ≡ v)
same_pair e = (cc, cc)

pub split_once-eq-some :
    (c : ℕ) (s x y : Bytes)
    → split_once c s ≡ some (x, y)
    → (s ≡ x ++ c ∷ y) × (contains c x ≡ false)
unfolding split_once contains
split_once-eq-some c [] x y h = cc
split_once-eq-some c (b ∷ bs) x y h = elim (Bool-cases (b == c)) [
  | inl e ↦
      let (p, q) = same_pair (rw e at h) in
      let first : b ≡ c = (nat_beq_iff b c).0 e in rw (sym p, sym q, first) (refl, refl)
  | inr e ↦ elim (Option-cases (split_once c bs)) [
    | inl n ↦ cc
    | inr ((u, v), f) ↦
        let (p, q) = same_pair (rw (e, f) at h) in
        let (whole, free) = split_once-eq-some c bs u v f in
        rw (sym p, sym q, whole, e, free) (refl, refl)
  ]
]
