-- ===== src/PrefixTrie/LongestPrefix.antt =====
-- The trie against the rule table that it stands for.
use native.Mathlib.Nat.{pow-suc, div-div-eq-div-mul, add-zero, add-suc, suc-add}
use nsproxy_rs.Base.{
  ℕ, zero, suc, ◌+◌, ◌-◌, ◌/◌, ◌%◌, ◌^◌, ◌≤◌, ◌<◌, ◌≡◌, refl, sym, ◌∙◌, Bool, ◌&&◌, List, [], ◌∷◌,
  Option, none, some, ◌==◌, if◌then◌else◌, arith, All,
}
use nsproxy_rs.PrefixTrie.{PrefixTrie, bit, action, or_else, insert, get, insert_all, default}
use nsproxy_rs.PrefixTrie.Paths.{
  same, agree, at_path, at_path-absent, at_path-insert_from, deepest, get_from-deepest,
  or_else_assoc, or_else-none,
}

-- The network of a rule holds an address if the two agree above the last `32 - prefix` bits.
abbrev pub holds : ℕ → ℕ → ℕ → Bool
holds network prefix v = v / 2 ^ (32 - prefix) == network / 2 ^ (32 - prefix)

agree_snoc :
    (n i v w : ℕ) → agree (suc n) i v w ≡ (agree n i v w && same (bit v (i + n)) (bit w (i + n)))
agree_snoc zero i v w = rw (add-zero i) (ground arith)
agree_snoc (suc n) i v w = ground (arith, agree_snoc n (suc i) v w, add-suc i n, suc-add i n)

halve : (k v : ℕ) → v / 2 ^ suc k ≡ v / 2 ^ k / 2
halve k v = rw (pow-suc 2 k, div-div-eq-div-mul v (2 ^ k) 2)

halves_agree : (x y : ℕ) → (x == y) ≡ (x / 2 == y / 2 && same (x % 2 == 1) (y % 2 == 1))
halves_agree x y = ground arith

agree-holds : (q v w : ℕ) → q ≤ 32 → v < 2 ^ 32 → w < 2 ^ 32 → agree q 0 v w ≡ holds w q v
agree-holds zero v w h a b = ground arith
agree-holds (suc q) v w h a b =
    let k : 32 - q ≡ suc (31 - q) = omega arith in
    let k' : 32 - suc q ≡ 31 - q = omega arith in
    let z : 0 + q ≡ q = omega arith in
    rw (agree_snoc q 0 v w, agree-holds q v w (omega arith) a b)
      (rw (z, k, k', halve (31 - q) v, halve (31 - q) w)
        (sym (halves_agree (v / 2 ^ (31 - q)) (w / 2 ^ (31 - q)))))

module _ {ℓ} {A : Type ℓ} where
  -- The first rule of the table with the prefix length `p` whose network holds `v`.
  abbrev pub first_match : List (ℕ × ℕ × A) → ℕ → ℕ → Option A
  first_match [] p v = none
  first_match ((network, prefix, a) ∷ rs) p v =
      if p == prefix && holds network prefix v then some a else first_match rs p v

  -- The first match of the greatest length that has one, from `p` down.
  abbrev pub longest_match : List (ℕ × ℕ × A) → ℕ → ℕ → Option A
  longest_match rs zero v = first_match rs 0 v
  longest_match rs (suc p) v = or_else (first_match rs (suc p) v) (longest_match rs p v)

  abbrev pub IsTable : List (ℕ × ℕ × A) → Type 0
  IsTable = All (λ r. (r.0 < 2 ^ 32) × (r.1 ≤ 32))

  at_path-insert_all :
      (rs : List (ℕ × ℕ × A)) (p v : ℕ) (t : PrefixTrie A)
      → IsTable rs
      → p ≤ 32
      → v < 2 ^ 32
      → at_path p 0 v (insert_all rs t) ≡ or_else (at_path p 0 v t) (first_match rs p v)
  unfolding insert_all insert
  at_path-insert_all [] p v t h a b = sym (or_else-none (at_path p 0 v t))
  at_path-insert_all ((network, prefix, x) ∷ rs) p v t h a b = ground (
    arith,
    at_path-insert_all rs p v (insert network prefix x t) h.1 a b,
    at_path-insert_from prefix p 0 v network x t,
    agree-holds prefix v network h.0.1 b h.0.0,
  )

  at_path-default : (p v : ℕ) → at_path {A = A} p 0 v default ≡ none
  at_path-default zero v = refl
  at_path-default (suc p) v = ground (arith, at_path-absent {A = A} p 1 v)

  deepest-longest_match :
      (rs : List (ℕ × ℕ × A)) (n v : ℕ)
      → IsTable rs
      → n ≤ 32
      → v < 2 ^ 32
      → let t = insert_all rs default in or_else (deepest n 0 v t) (action t) ≡ longest_match rs n v
  deepest-longest_match rs zero v h a b = at_path-insert_all rs 0 v default h (omega arith) b
  deepest-longest_match rs (suc n) v h a b =
      let t = insert_all rs default in
      sym (or_else_assoc (at_path (suc n) 0 v t) (deepest n 0 v t) (action t))
      ∙ ground (
        arith,
        at_path-insert_all rs (suc n) v default h a b,
        at_path-default (suc n) v,
        deepest-longest_match rs n v h (omega arith) b,
      )

  -- A look-up in the trie built from a rule table gives the longest matching prefix, and among
  -- rules of one length the first in the table.
  pub get-longest_match :
      (rs : List (ℕ × ℕ × A)) (v : ℕ)
      → IsTable rs
      → v < 2 ^ 32
      → get v (insert_all rs default) ≡ longest_match rs 32 v
  unfolding get
  get-longest_match rs v h b =
      get_from-deepest 32 0 v (action (insert_all rs default)) (insert_all rs default)
      ∙ deepest-longest_match rs 32 v h (omega arith) b
