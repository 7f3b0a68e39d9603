-- ===== src/Process/Complete.antt =====
-- src/process.rs: the loop of the search ends, and with what it should find.
use nsproxy_rs.Base.{
  ℕ, zero, suc, ◌+◌, ◌^◌, ◌≤◌, ◌<◌, ◌≡◌, refl, sym, ap, subst, ◌⊎◌, inl, inr, Bool-cases, List, [],
  ◌∷◌, length, All, ok, arith,
}
use nsproxy_rs.Process.{ProcFs, Search, has, add, search_tree, tree_fuel, descendants, i32_max}
use nsproxy_rs.Process.Children.{add_all, children_of, add_process_lem, children_of-IsPid}
use nsproxy_rs.Process.Tree.{
  In, IsDistinct, Descendant, self, below, IsSearch, IsClosed, ChildrenFirst,
}
use nsproxy_rs.Process.Descendants.{IsComplete, IsReady, IsReady-next, done-IsComplete}
use nsproxy_rs.Process.Pigeonhole.{pigeonhole}

pending-cases : (xs : List ℕ) → (xs ≡ []) ⊎ ((x : ℕ) × (rest : List ℕ) × (xs ≡ x ∷ rest))
pending-cases [] = inl refl
pending-cases (x ∷ xs) = inr (x, xs, refl)

In-All : (n x : ℕ) (xs : List ℕ) → All (λ y. y ≤ n) xs → In x xs → x ≤ n
unfolding In
In-All n x [] all i = absurd i
In-All n x (y ∷ ys) all (inl e) = subst (λ z. z ≤ n) (sym e) all.0
In-All n x (y ∷ ys) all (inr i) = In-All n x ys all.1 i

-- Each process that comes to wait is one more that has been seen.
add_count :
    (s : Search) (c : ℕ)
    → length (add s c).pending + length s.seen ≡ length s.pending + length (add s c).seen
unfolding add
add_count s c = elim (Bool-cases (has s.seen c)) [ inl e ↦ rw e refl | inr e ↦ rw e (omega arith) ]

add_all_count :
    (cs : List ℕ) (s : Search)
    → length (add_all cs s).pending + length s.seen ≡ length s.pending + length (add_all cs s).seen
unfolding add_all
add_all_count [] s = refl
add_all_count (c ∷ cs) s = omega (arith, add_count s c, add_all_count cs (add s c))

head_In : (x : ℕ) (xs : List ℕ) → In x (x ∷ xs)
unfolding In
head_In x xs = inl refl

module _ (fs : ProcFs) (root : ℕ) where
  Descendant-le : root ≤ i32_max → (x : ℕ) → Descendant fs root x → x ≤ i32_max
  Descendant-le pid root self = pid
  Descendant-le pid x (below {p = p} d (cs, e, i)) =
      In-All i32_max x cs (children_of-IsPid fs p cs e) i

  -- No file of a descendant is refused, and all texts are numbers.
  abbrev pub IsReadable : Type 0
  IsReadable = (p : ℕ) → Descendant fs root p → (cs : List ℕ) × (children_of fs p ≡ ok cs)

  seen_bounded : (s : Search) → root ≤ i32_max → IsSearch fs root s → length s.seen ≤ 2 ^ 31
  seen_bounded s pid inv =
      pigeonhole (2 ^ 31) s.seen inv.distinct
        (λ x i. omega (arith, Descendant-le pid x (inv.descend x i)))

  search_tree-IsComplete :
      (fuel : ℕ) (s : Search)
      → root ≤ i32_max
      → IsReadable
      → IsReady fs root s
      → length s.pending + 2 ^ 31 < fuel + length s.seen
      → (out : List ℕ) × (search_tree fs fuel s ≡ ok out) × IsComplete fs root out
  unfolding search_tree
  search_tree-IsComplete zero s pid readable ready enough =
      absurd (omega (arith, seen_bounded s pid ready.is_search))
  search_tree-IsComplete (suc fuel) s pid readable ready enough = elim (pending-cases s.pending) [
    | inl e ↦ (s.found, rw e refl, done-IsComplete fs root s e ready)
    | inr (p, rest, e) ↦
        let s0 : Search = record s { pending = rest } in
        let waits : In p s.pending = subst (In p) (sym e) (head_In p rest) in
        let known : Descendant fs root p =
          ready.is_search.descend p (ready.is_search.waiting p waits) in
        let (cs, h) = readable p known in
        let s1 = add_all cs s0 in
        let next : IsReady fs root s1 = IsReady-next fs root s p rest cs e h ready in
        let fewer : length s.pending ≡ suc (length rest) = ap length e in
        let (out, run, done) =
          search_tree-IsComplete fuel s1 pid readable next
            (omega (arith, add_all_count cs s0, seen_bounded s1 pid next.is_search)) in
        (out, rw (e, add_process_lem fs p s0, h) run, done)
  ]

  start : IsReady fs root (record { seen = root ∷ []; pending = root ∷ []; found = [] })
  unfolding IsClosed IsDistinct ChildrenFirst In
  start = record {
    is_search = record {
      split = refl;
      descend =
          λ x i. elim i [ inl e ↦ subst (Descendant fs root) (sym e) self | inr bad ↦ absurd bad ];
      waiting = λ x i. i;
      distinct = (λ bad. bad, tt);
    };
    closed = λ x i. inr (inl i);
    first = λ tree. tt;
  }

  -- If nothing of the tree is refused, the search ends, and finds the descendants of the root, each
  -- once; if every process has one parent, all children stand before their parents.
  pub descendants-IsComplete :
      root ≤ i32_max
      → IsReadable
      → (out : List ℕ) × (descendants fs root ≡ ok out) × IsComplete fs root out
  unfolding descendants
  descendants-IsComplete pid readable =
      search_tree-IsComplete tree_fuel
        (record { seen = root ∷ []; pending = root ∷ []; found = [] }) pid readable start
        (omega arith)
