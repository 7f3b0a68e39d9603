-- ===== src/Process/Descendants.antt =====
-- src/process.rs: the whole search.
use nsproxy_rs.Base.{ℕ, ◌≡◌, refl, sym, ap, subst, ◌∙◌, ◌⊎◌, inl, inr, List, [], ◌∷◌, ◌++◌, ok}
use nsproxy_rs.Process.{ProcFs, Search}
use nsproxy_rs.Process.Children.{add_all, children_of}
use nsproxy_rs.Process.Tree.{
  In, IsDistinct, Child, Descendant, self, below, ChildrenFirst, IsTree, IsSearch, IsClosed,
  add_all-AddsAll, In-split,
}

module _ (fs : ProcFs) (root : ℕ) where
  -- The processes found are the descendants of the root, each once and without the root.
  pub record IsComplete (out : List ℕ) : Type 0 where
    pub sound : (x : ℕ) → In x out → Descendant fs root x
    pub complete : (x : ℕ) → Descendant fs root x → (x ≡ root) ⊎ In x out
    pub distinct : IsDistinct (out ++ root ∷ [])
    pub children_first : IsTree fs root → ChildrenFirst fs root out

  pub record IsReady (s : Search) : Type 0 where
    pub is_search : IsSearch fs root s
    pub closed : IsClosed fs root (λ x. ⊥) s
    pub first : IsTree fs root → ChildrenFirst fs root s.found

  same_children :
      (x p c : ℕ) {cs : List ℕ}
      → x ≡ p
      → (k : Child fs root x c) → children_of fs p ≡ ok cs
      → k.0 ≡ cs
  same_children x p c {cs} e k h =
      let both : ok k.0 ≡ ok cs = sym k.1 ∙ (ap (children_of fs) e ∙ h) in cc

  pub IsReady-next :
      (s : Search) (p : ℕ) (rest cs : List ℕ)
      → s.pending ≡ p ∷ rest
      → children_of fs p ≡ ok cs
      → IsReady s
      → IsReady (add_all cs (record s { pending = rest }))
  unfolding IsClosed In
  IsReady-next s p rest cs e h ready =
      let s0 : Search = record s { pending = rest } in
      let inv = ready.is_search in
      let waits : (x : ℕ) → In x s.pending → (x ≡ p) ⊎ In x rest = λ x i. subst (In x) e i in
      let inv0 : IsSearch fs root s0 = record {
        split = inv.split;
        descend = inv.descend;
        waiting = λ x i. inv.waiting x (subst (In x) (sym e) (inr i));
        distinct = inv.distinct;
      } in
      let known : In p s.seen = inv.waiting p (subst (In p) (sym e) (inl refl)) in
      let closed0 : IsClosed fs root (λ x. x ≡ p) s0 = λ x i. elim (ready.closed x i) [
        | inl bad ↦ absurd bad
        | inr (inl w) ↦ elim (waits x w) [ inl q ↦ inl q | inr j ↦ inr (inl j) ]
        | inr (inr all) ↦ inr (inr all)
      ] in
      let adds = add_all-AddsAll fs root p cs s0 known (λ c i. (cs, h, i)) inv0 in
      record {
        is_search = adds.is_search;
        closed = λ x i. elim (adds.closed closed0 x i) [
          | inl q ↦
              inr (inr (λ c k. adds.all_seen c (subst (In c) (same_children x p c q k h) k.2)))
          | inr other ↦ inr other
        ];
        first = λ tree. adds.first tree (ready.first tree);
      }

  In-last : (xs : List ℕ) → In root (xs ++ root ∷ [])
  unfolding In
  In-last [] = inl refl
  In-last (y ∷ ys) = inr (In-last ys)

  In-front : (xs : List ℕ) (x : ℕ) → In x xs → In x (xs ++ root ∷ [])
  unfolding In
  In-front [] x i = absurd i
  In-front (y ∷ ys) x (inl e) = inl e
  In-front (y ∷ ys) x (inr i) = inr (In-front ys x i)

  all_seen :
      (s : Search) → s.pending ≡ [] → IsReady s → (x : ℕ) → Descendant fs root x → In x s.seen
  unfolding IsClosed In
  all_seen s e ready root self = subst (In root) (sym ready.is_search.split) (In-last s.found)
  all_seen s e ready x (below {p = p} d k) = elim (ready.closed p (all_seen s e ready p d)) [
    | inl bad ↦ absurd bad
    | inr (inl w) ↦ absurd (subst (In p) e w)
    | inr (inr all) ↦ all x k
  ]

  pub done-IsComplete : (s : Search) → s.pending ≡ [] → IsReady s → IsComplete s.found
  done-IsComplete s e ready =
      let inv = ready.is_search in
      record {
        sound = λ x i. inv.descend x (subst (In x) (sym inv.split) (In-front s.found x i));
        complete =
            λ x d. In-split fs root s.found x (subst (In x) inv.split (all_seen s e ready x d));
        distinct = subst IsDistinct inv.split inv.distinct;
        children_first = ready.first;
      }
