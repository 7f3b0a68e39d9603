-- ===== src/Process/Tree.antt =====
-- src/process.rs: the search for the command tree finds every descendant once, children first.
use nsproxy_rs.Base.{
  ℕ, ◌≡◌, refl, sym, ap, subst, ◌⊎◌, inl, inr, true, false, Bool-cases, List, [], ◌∷◌, ◌++◌, ok,
  arith, ◌==◌, ==_iff,
}
use nsproxy_rs.Process.{ProcFs, Search, has, add}
use nsproxy_rs.Process.Children.{add_all, children_of}

unfoldable pub In : ℕ → List ℕ → Type 0
In x [] = ⊥
In x (y ∷ ys) = (x ≡ y) ⊎ In x ys

has-In : (xs : List ℕ) (x : ℕ) → has xs x ≡ true → In x xs
unfolding In
has-In [] x h = cc
has-In (y ∷ ys) x h = elim (Bool-cases (y == x)) [
  | inl e ↦ inl (sym ((==_iff y x).0 e))
  | inr e ↦ inr (has-In ys x (ground arith))
]

In-has : (xs : List ℕ) (x : ℕ) → has xs x ≡ false → In x xs → ⊥
unfolding In
In-has [] x h i = i
In-has (y ∷ ys) x h (inl e) = ground arith
In-has (y ∷ ys) x h (inr i) = In-has ys x (ground arith) i

-- No element twice.
unfoldable pub IsDistinct : List ℕ → Type 0
IsDistinct [] = Unit
IsDistinct (x ∷ xs) = (In x xs → ⊥) × IsDistinct xs

module _ (fs : ProcFs) (root : ℕ) where
  -- The system lists `c` as a child of `p`.
  abbrev pub Child : ℕ → ℕ → Type 0
  Child p c = (cs : List ℕ) × (children_of fs p ≡ ok cs) × In c cs

  pub data Descendant : ℕ → Type 0 where
    self : Descendant root
    below : {p c : ℕ} → Descendant p → Child p c → Descendant c

  -- Behind each process stand all its parents but the root.
  unfoldable pub ChildrenFirst : List ℕ → Type 0
  ChildrenFirst [] = Unit
  ChildrenFirst (c ∷ rest) = ((p : ℕ) → Child p c → (p ≡ root) ⊎ In p rest) × ChildrenFirst rest

  -- The state of the search; the children of `busy` are being added.
  pub record IsSearch (s : Search) : Type 0 where
    pub split : s.seen ≡ s.found ++ root ∷ []
    pub descend : (x : ℕ) → In x s.seen → Descendant x
    pub waiting : (x : ℕ) → In x s.pending → In x s.seen
    pub distinct : IsDistinct s.seen

  -- Each process has one parent, as in a process tree.
  abbrev pub IsTree : Type 0
  IsTree = (p q c : ℕ) → Child p c → Child q c → p ≡ q

  add-IsSearch : (s : Search) (p c : ℕ) → In p s.seen → Child p c → IsSearch s → IsSearch (add s c)
  unfolding add In IsDistinct
  add-IsSearch s p c known child inv = elim (Bool-cases (has s.seen c)) [
    | inl old ↦ rw old inv
    | inr new ↦ rw new (record {
      split = ap (◌∷◌ c) inv.split;
      descend = λ x i. elim i [
        | inl e ↦ subst Descendant (sym e) (below (inv.descend p known) child)
        | inr j ↦ inv.descend x j
      ];
      waiting = λ x i. elim i [ inl e ↦ inl e | inr j ↦ inr (inv.waiting x j) ];
      distinct = (In-has s.seen c new, inv.distinct);
    })
  ]

  -- Every process seen is busy, waits, or has all its children seen.
  unfoldable pub IsClosed : (ℕ → Type 0) → Search → Type 0
  IsClosed Busy s =
      (x : ℕ) → In x s.seen → Busy x ⊎ (In x s.pending ⊎ ((c : ℕ) → Child x c → In c s.seen))

  -- What stays in the state while children are added.
  pub record Grows (s t : Search) : Type 0 where
    pub seen : (x : ℕ) → In x s.seen → In x t.seen
    pub pending : (x : ℕ) → In x s.pending → In x t.pending

  add-Grows : (s : Search) (c : ℕ) → Grows s (add s c)
  unfolding add In
  add-Grows s c = elim (Bool-cases (has s.seen c)) [
    | inl old ↦ rw old (record { seen = λ x i. i; pending = λ x i. i })
    | inr new ↦ rw new (record { seen = λ x i. inr i; pending = λ x i. inr i })
  ]

  add_seen : (s : Search) (c : ℕ) → In c (add s c).seen
  unfolding add In
  add_seen s c = elim (Bool-cases (has s.seen c)) [
    | inl old ↦ rw old (has-In s.seen c old)
    | inr new ↦ rw new (inl refl)
  ]

  add-IsClosed :
      (Busy : ℕ → Type 0) (s : Search) (c : ℕ) → IsClosed Busy s → IsClosed Busy (add s c)
  unfolding IsClosed add In
  add-IsClosed Busy s c closed = elim (Bool-cases (has s.seen c)) [
    | inl old ↦ rw old closed
    | inr new ↦ rw new (λ x i. elim i [
      | inl e ↦ inr (inl (inl e))
      | inr j ↦ elim (closed x j) [
        | inl busy ↦ inl busy
        | inr (inl waits) ↦ inr (inl (inr waits))
        | inr (inr all) ↦ inr (inr (λ d h. inr (all d h)))
      ]
    ])
  ]

  pub In-split : (xs : List ℕ) (x : ℕ) → In x (xs ++ root ∷ []) → (x ≡ root) ⊎ In x xs
  unfolding In
  In-split [] x (inl e) = inl e
  In-split [] x (inr i) = absurd i
  In-split (y ∷ ys) x (inl e) = inr (inl e)
  In-split (y ∷ ys) x (inr i) = elim (In-split ys x i) [ inl e ↦ inl e | inr j ↦ inr (inr j) ]

  add-ChildrenFirst :
      (s : Search) (p c : ℕ)
      → IsTree
      → In p s.seen
      → Child p c
      → IsSearch s
      → ChildrenFirst s.found
      → ChildrenFirst (add s c).found
  unfolding add ChildrenFirst
  add-ChildrenFirst s p c tree known child inv first = elim (Bool-cases (has s.seen c)) [
    | inl old ↦ rw old first
    | inr new ↦ rw new (
      (λ q h.
          let e : p ≡ q = tree p q c child h in
          subst (λ r. (r ≡ root) ⊎ In r s.found) e
            (In-split s.found p (subst (In p) inv.split known))),
      first,
    )
  ]

  -- The state after the children `cs` of `p` have been added.
  pub record AddsAll (p : ℕ) (cs : List ℕ) (s t : Search) : Type 0 where
    pub is_search : IsSearch t
    pub grows : Grows s t
    pub all_seen : (c : ℕ) → In c cs → In c t.seen
    pub closed : IsClosed (λ x. x ≡ p) s → IsClosed (λ x. x ≡ p) t
    pub first : IsTree → ChildrenFirst s.found → ChildrenFirst t.found

  pub add_all-AddsAll :
      (p : ℕ) (cs : List ℕ) (s : Search)
      → In p s.seen
      → ((c : ℕ) → In c cs → Child p c)
      → IsSearch s
      → AddsAll p cs s (add_all cs s)
  unfolding add_all In
  add_all-AddsAll p [] s known children inv = record {
    is_search = inv;
    grows = record { seen = λ x i. i; pending = λ x i. i };
    all_seen = λ c i. absurd i;
    closed = λ h. h;
    first = λ tree h. h;
  }
  add_all-AddsAll p (c ∷ cs) s known children inv =
      let now = add-Grows s c in
      let child = children c (inl refl) in
      let next = add-IsSearch s p c known child inv in
      let rest =
        add_all-AddsAll p cs (add s c) (now.seen p known) (λ d i. children d (inr i)) next in
      record {
        is_search = rest.is_search;
        grows = record {
          seen = λ x i. rest.grows.seen x (now.seen x i);
          pending = λ x i. rest.grows.pending x (now.pending x i);
        };
        all_seen = λ d i. elim i [
          | inl e ↦
              subst (λ y. In y (add_all cs (add s c)).seen) (sym e)
                (rest.grows.seen c (add_seen s c))
          | inr j ↦ rest.all_seen d j
        ];
        closed = λ h. rest.closed (add-IsClosed (λ x. x ≡ p) s c h);
        first = λ tree h. rest.first tree (add-ChildrenFirst s p c tree known child inv h);
      }
