-- ===== src/PrefixTrie.antt =====
-- src/rule.rs: `PrefixTrie`, the longest-prefix matcher for IPv4 rules. An address is its 32-bit
-- number. A child slot that is `None` is `absent`.
pub mod Paths
pub mod LongestPrefix
use nsproxy_rs.Base.{
  ℕ, zero, suc, ◌-◌, ◌/◌, ◌%◌, ◌^◌, Bool, true, false, List, [], ◌∷◌, Option, none, some, ◌==◌,
  if◌then◌else◌,
}

pub data PrefixTrie {ℓ} (A : Type ℓ) : Type ℓ where
  absent : PrefixTrie A
  node : PrefixTrie A → PrefixTrie A → Option A → PrefixTrie A

-- `(value >> (31 - i)) & 1`, as a choice of child.
abbrev pub bit : ℕ → ℕ → Bool
bit value i = value / 2 ^ (31 - i) % 2 == 1

module _ {ℓ} {A : Type ℓ} where
  -- The children and the action of a node; those of the default node where there is none.
  abbrev pub child : Bool → PrefixTrie A → PrefixTrie A
  child b absent = absent
  child b (node l r a) = if b then r else l

  abbrev pub action : PrefixTrie A → Option A
  action absent = none
  action (node l r a) = a

  abbrev pub or_else : Option A → Option A → Option A
  or_else none b = b
  or_else (some a) b = some a

  -- The loop of `insert` over the bits from `i` on, with the number of bits left.
  unfoldable pub insert_from : ℕ → ℕ → ℕ → A → PrefixTrie A → PrefixTrie A
  insert_from zero i value a t = node (child false t) (child true t) (or_else (action t) (some a))
  insert_from (suc n) i value a t =
      let l = insert_from n (suc i) value a (child false t) in
      let r = insert_from n (suc i) value a (child true t) in
      if bit value i then node (child false t) r (action t) else node l (child true t) (action t)

  unfoldable pub insert : ℕ → ℕ → A → PrefixTrie A → PrefixTrie A
  insert value prefix a t = insert_from prefix 0 value a t

  -- The loop of `get`: it stops at a missing child, and keeps the action of the deepest node.
  unfoldable pub get_from : ℕ → ℕ → ℕ → Option A → PrefixTrie A → Option A
  get_from zero i value best t = best
  get_from (suc n) i value best t = elim (child (bit value i) t) [
    | absent ↦ best
    | node l r a ↦ get_from n (suc i) value (or_else a best) (node l r a)
  ]

  unfoldable pub get : ℕ → PrefixTrie A → Option A
  get value t = get_from 32 0 value (action t) t

  -- Rules inserted in order into the default trie.
  unfoldable pub insert_all : List (ℕ × ℕ × A) → PrefixTrie A → PrefixTrie A
  insert_all [] t = t
  insert_all ((value, prefix, a) ∷ rs) t = insert_all rs (insert value prefix a t)

  abbrev pub default : PrefixTrie A
  default = node absent absent none
