-- ===== src/PrefixTrie/Paths.antt =====
-- What stands at the end of each path of the trie, after an insertion and in a search.
use nsproxy_rs.Base.{
  ℕ, zero, suc, ◌≡◌, refl, ap, ◌∙◌, inl, inr, ◌⊎◌, Bool, true, false, ◌&&◌, not, Option, none, some,
  ◌==◌, if◌then◌else◌, arith, Bool-cases,
}
use nsproxy_rs.PrefixTrie.{
  PrefixTrie, absent, node, bit, child, action, or_else, insert_from, get_from,
}

abbrev pub same : Bool → Bool → Bool
same true b = b
same false b = not b

-- The bits of two values agree at `n` places from `i` on.
abbrev pub agree : ℕ → ℕ → ℕ → ℕ → Bool
agree zero i v w = true
agree (suc n) i v w = same (bit v i) (bit w i) && agree n (suc i) v w

child-cases {ℓ} :
    {A : Type ℓ} (t : PrefixTrie A)
    → (t ≡ absent) ⊎ ((l r : PrefixTrie A) × (a : Option A) × (t ≡ node l r a))
child-cases absent = inl refl
child-cases (node l r a) = inr (l, r, a, refl)

module _ {ℓ} {A : Type ℓ} where
  -- The action at the end of the path of `p` bits of `v` from `i` on.
  abbrev pub at_path : ℕ → ℕ → ℕ → PrefixTrie A → Option A
  at_path zero i v t = action t
  at_path (suc p) i v t = at_path p (suc i) v (child (bit v i) t)

  pub at_path-absent : (p i v : ℕ) → at_path p i v absent ≡ none
  at_path-absent zero i v = refl
  at_path-absent (suc p) i v = at_path-absent p (suc i) v

  -- An insertion fills the end of its path, if that is free, and changes no other.
  pub at_path-insert_from :
      (q p i v w : ℕ) (a : A) (t : PrefixTrie A)
      → at_path p i v (insert_from q i w a t)
        ≡ (if p == q && agree q i v w then or_else (at_path p i v t) (some a) else at_path p i v t)
  unfolding insert_from
  at_path-insert_from zero zero i v w a t = refl
  at_path-insert_from zero (suc p) i v w a absent = ground arith
  at_path-insert_from zero (suc p) i v w a (node l r b) = ground arith
  at_path-insert_from (suc q) zero i v w a t = ground arith
  at_path-insert_from (suc q) (suc p) i v w a t =
      let left = at_path-insert_from q p (suc i) v w a (child false t) in
      let right = at_path-insert_from q p (suc i) v w a (child true t) in
      elim (Bool-cases (bit w i)) [
        | inl e ↦ elim (Bool-cases (bit v i)) [
          | inl f ↦ rw (e, f) (ground (arith, right))
          | inr f ↦ rw (e, f) (ground arith)
        ]
        | inr e ↦ elim (Bool-cases (bit v i)) [
          | inl f ↦ rw (e, f) (ground arith)
          | inr f ↦ rw (e, f) (ground (arith, left))
        ]
      ]

  -- The deepest action on the first `n` bits of the path of `v` below the node itself.
  abbrev pub deepest : ℕ → ℕ → ℕ → PrefixTrie A → Option A
  deepest zero i v t = none
  deepest (suc n) i v t = or_else (at_path (suc n) i v t) (deepest n i v t)

  pub or_else_assoc : (a b c : Option A) → or_else a (or_else b c) ≡ or_else (or_else a b) c
  or_else_assoc none b c = refl
  or_else_assoc (some a) b c = refl

  pub or_else-none : (a : Option A) → or_else a none ≡ a
  or_else-none none = refl
  or_else-none (some a) = refl

  deepest-child :
      (n i v : ℕ) (t : PrefixTrie A)
      → deepest (suc n) i v t
        ≡ or_else (deepest n (suc i) v (child (bit v i) t)) (action (child (bit v i) t))
  deepest-child zero i v t = or_else-none (action (child (bit v i) t))
  deepest-child (suc n) i v t =
      ap (or_else (at_path (suc n) (suc i) v (child (bit v i) t))) (deepest-child n i v t)
      ∙ or_else_assoc (at_path (suc n) (suc i) v (child (bit v i) t))
          (deepest n (suc i) v (child (bit v i) t)) (action (child (bit v i) t))

  deepest-absent : (n i v : ℕ) → deepest n i v absent ≡ none
  deepest-absent zero i v = refl
  deepest-absent (suc n) i v = rw (at_path-absent n (suc i) v) (deepest-absent n i v)

  -- The loop of `get` finds it.
  pub get_from-deepest :
      (n i v : ℕ) (best : Option A) (t : PrefixTrie A)
      → get_from n i v best t ≡ or_else (deepest n i v t) best
  unfolding get_from
  get_from-deepest zero i v best t = refl
  get_from-deepest (suc n) i v best t = elim (child-cases (child (bit v i) t)) [
    | inl e ↦ rw (deepest-child n i v t) (rw (e, get_from) (rw (deepest-absent n (suc i) v)))
    | inr (l, r, a, e) ↦ rw (deepest-child n i v t) (
        rw (e, get_from)
          (get_from-deepest n (suc i) v (or_else a best) (node l r a)
            ∙ or_else_assoc (deepest n (suc i) v (node l r a)) a best))
  ]
