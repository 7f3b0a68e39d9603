-- ===== src/FakeDns/Lifetime.antt =====
-- How long a mapping of `FakeDns` lives: the pool is a ring, so a slot is reused only after every
-- other slot has been.
use nsproxy_rs.Base.{
  ℕ, suc, ◌+◌, ◌-◌, ◌%◌, ◌≤◌, ◌<◌, ◌≡◌, ◌≢◌, inl, inr, Bool, false, List, [], ◌∷◌, Option, none,
  some, Bytes, length, arith, Option-cases, ◌==◌, if◌then◌else◌, bytes_beq_iff, nat_eq, bytes_eq,
}
use nsproxy_rs.Base.Map.{get}
use nsproxy_rs.FakeDns.{
  FakeDns, pool_start, pool_end, pool_size, next_ip, allocate, resolve, resolve_all, lookup,
}
use nsproxy_rs.FakeDns.Invariant.{
  IsValid, kept, get-allocate_ip, get-allocate_domain, allocate_offset, resolve-IsValid,
  lookup-resolve,
}

-- The number of allocations that pass before the slot of `ip` is taken again.
abbrev pub uses_left : FakeDns → ℕ → ℕ
uses_left s ip = (ip - pool_start + pool_size - s.next_offset) % pool_size

-- With an allocation left, the next one takes another slot and brings the reuse one nearer.
allocate-uses_left :
    (s : FakeDns) (d : Bytes) (ip : ℕ) (n : ℕ)
    → IsValid s
    → pool_start ≤ ip
    → ip ≤ pool_end
    → suc n ≤ uses_left s ip
    → (next_ip s ≢ ip) × (n ≤ uses_left (allocate s d) ip)
allocate-uses_left s d ip n v lo hi h = omega (arith, allocate_offset s d v, v.offset)

resolve-keeps :
    (s : FakeDns) (x d : Bytes) (ip n : ℕ)
    → IsValid s
    → lookup s ip ≡ some d
    → suc n ≤ uses_left s ip
    → (lookup (resolve s x).0 ip ≡ some d) × (n ≤ uses_left (resolve s x).0 ip)
unfolding resolve lookup
resolve-keeps s x d ip n v m h = elim (Option-cases (get x s.domain_to_ip)) [
  | inr (j, known) ↦ rw (known, resolve) (m, omega arith)
  | inl fresh ↦
      let (other, left) =
        allocate-uses_left s x ip n v (v.in_pool ip d m).0 (v.in_pool ip d m).1 h in
      rw (fresh, resolve) (ground (arith, get-allocate_ip s x ip), left)
]

-- A mapping outlives any calls of `resolve` that are no more than its slot has uses left.
pub lookup-resolve_all :
    (ds : List Bytes) (s : FakeDns) (ip : ℕ) (d : Bytes)
    → IsValid s
    → lookup s ip ≡ some d
    → length ds ≤ uses_left s ip
    → lookup (resolve_all s ds) ip ≡ some d
unfolding resolve_all
lookup-resolve_all [] s ip d v m h = m
lookup-resolve_all (x ∷ ds) s ip d v m h =
    let (m', left) = resolve-keeps s x d ip (length ds) v m h in
    lookup-resolve_all ds (resolve s x).0 ip d (resolve-IsValid s x v) m' left

allocate-uses_left_self :
    (s : FakeDns) (d : Bytes) → IsValid s → uses_left (allocate s d) (next_ip s) ≡ pool_size - 1
allocate-uses_left_self s d v = omega (arith, allocate_offset s d v, v.offset)

-- A domain that is new to `resolve` can be recovered from its address after any further calls,
-- as long as these are fewer than the pool has addresses.
pub lookup-resolve_new :
    (s : FakeDns) (d : Bytes) (ds : List Bytes)
    → IsValid s
    → get d s.domain_to_ip ≡ none
    → length ds < pool_size
    → lookup (resolve_all (resolve s d).0 ds) (resolve s d).1 ≡ some d
lookup-resolve_new s d ds v fresh h =
    lookup-resolve_all ds (resolve s d).0 (resolve s d).1 d (resolve-IsValid s d v)
      (lookup-resolve s d v).0 left
  where
    left : length ds ≤ uses_left (resolve s d).0 (resolve s d).1
    left = unfold resolve in rw (fresh, resolve) (omega (arith, allocate-uses_left_self s d v))

abbrev pub is_at : ℕ → Option ℕ → Bool
is_at ip none = false
is_at ip (some j) = j == ip

kept-is_at :
    (s : FakeDns) (e : Bytes)
    → IsValid s
    → kept (get (next_ip s) s.ip_to_domain) e s
      ≡ (if is_at (next_ip s) (get e s.domain_to_ip) then none else get e s.domain_to_ip)
kept-is_at s e v = elim (Option-cases (get (next_ip s) s.ip_to_domain)) [
  | inl free ↦ elim (Option-cases (get e s.domain_to_ip)) [
    | inl unknown ↦ ground arith
    | inr (ip, known) ↦ ground (arith, v.forward e ip)
  ]
  | inr (old, taken) ↦ elim (Option-cases (get e s.domain_to_ip)) [
    | inl unknown ↦ ground arith
    | inr (ip, known) ↦
        ground (arith, bytes_beq_iff old e, v.forward e ip, v.backward (next_ip s) old)
  ]
]

-- Resolving a new domain changes no other domain's address, but for the one whose slot it takes:
-- that domain loses its mapping.
pub resolve-frame :
    (s : FakeDns) (d e : Bytes)
    → IsValid s
    → get d s.domain_to_ip ≡ none
    → d ≢ e
    → get e (resolve s d).0.domain_to_ip
      ≡ (if is_at (next_ip s) (get e s.domain_to_ip) then none else get e s.domain_to_ip)
unfolding resolve
resolve-frame s d e v fresh other =
    rw (fresh, resolve)
      (ground (arith, get-allocate_domain s d e, bytes_beq_iff d e, kept-is_at s e v))
