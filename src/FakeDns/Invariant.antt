-- ===== src/FakeDns/Invariant.antt =====
-- The two maps of `FakeDns` stay inverse to each other, and every address lies in the pool.
use nsproxy_rs.Base.{
  ℕ, ◌≤◌, ◌<◌, ◌≡◌, inl, inr, true, Option, none, some, Bytes, arith, Option-cases, ◌==◌,
  if◌then◌else◌, ◌+◌, ◌%◌, nat_eq, bytes_eq, bytes_beq_iff, bytes_beq_refl, bytes_beq,
}
use nsproxy_rs.Base.Map.{get, remove, get-insert, get-remove}
use nsproxy_rs.FakeDns.{
  FakeDns, pool_start, pool_end, pool_size, new, evict, next_ip, allocate, resolve, lookup,
  is_fake_ip,
}

pub record IsValid (s : FakeDns) : Type 0 where
  pub offset : s.next_offset < pool_size
  pub forward :
      (d : Bytes) (ip : ℕ) → get d s.domain_to_ip ≡ some ip → get ip s.ip_to_domain ≡ some d
  pub backward :
      (ip : ℕ) (d : Bytes) → get ip s.ip_to_domain ≡ some d → get d s.domain_to_ip ≡ some ip
  pub in_pool :
      (ip : ℕ) (d : Bytes) → get ip s.ip_to_domain ≡ some d → (pool_start ≤ ip) × (ip ≤ pool_end)

pub new-IsValid : IsValid new
unfolding new get
new-IsValid = record {
  offset = omega arith;
  forward = λ d ip h. cc;
  backward = λ ip d h. cc;
  in_pool = λ ip d h. absurd (cc);
}

-- What the two maps hold after an allocation.
pub get-allocate_ip :
    (s : FakeDns) (d : Bytes) (j : ℕ)
    → get j (allocate s d).ip_to_domain ≡ (if next_ip s == j then some d else get j s.ip_to_domain)
unfolding allocate evict
get-allocate_ip s d j = ground (
  arith,
  get-insert (next_ip s) j d (remove (next_ip s) s.ip_to_domain),
  get-remove (next_ip s) j s.ip_to_domain,
)

abbrev pub kept : Option Bytes → Bytes → FakeDns → Option ℕ
kept none e s = get e s.domain_to_ip
kept (some old) e s = if bytes_beq old e then none else get e s.domain_to_ip

pub get-allocate_domain :
    (s : FakeDns) (d e : Bytes)
    → get e (allocate s d).domain_to_ip
      ≡ (if bytes_beq d e then some (next_ip s) else kept (get (next_ip s) s.ip_to_domain) e s)
unfolding allocate evict
get-allocate_domain s d e = elim (Option-cases (get (next_ip s) s.ip_to_domain)) [
  | inl free ↦ ground (arith, get-insert d e (next_ip s) s.domain_to_ip)
  | inr (old, taken) ↦ ground (
    arith,
    get-insert d e (next_ip s) (remove old s.domain_to_ip),
    get-remove old e s.domain_to_ip,
  )
]

pub next_ip-range : (s : FakeDns) → IsValid s → (pool_start ≤ next_ip s) × (next_ip s ≤ pool_end)
next_ip-range s v = omega arith

module _ (s : FakeDns) (d : Bytes) (v : IsValid s) where
  allocate-forward :
      (e : Bytes) (ip : ℕ)
      → get e (allocate s d).domain_to_ip ≡ some ip
      → get ip (allocate s d).ip_to_domain ≡ some e
  allocate-forward e ip h = ground (
    arith,
    get-allocate_domain s d e,
    get-allocate_ip s d ip,
    bytes_beq_iff d e,
    Option-cases (get (next_ip s) s.ip_to_domain),
    bytes_beq_refl e,
    v.forward e ip,
  )

  allocate-backward :
      get d s.domain_to_ip ≡ none
      → (ip : ℕ) (e : Bytes) → get ip (allocate s d).ip_to_domain ≡ some e
      → get e (allocate s d).domain_to_ip ≡ some ip
  allocate-backward fresh ip e h = elim (Option-cases (get (next_ip s) s.ip_to_domain)) [
    | inl free ↦ ground (
      arith,
      get-allocate_domain s d e,
      get-allocate_ip s d ip,
      bytes_beq_iff d e,
      bytes_beq_refl d,
      v.backward ip e,
    )
    | inr (old, taken) ↦ ground (
      arith,
      get-allocate_domain s d e,
      get-allocate_ip s d ip,
      bytes_beq_iff d e,
      bytes_beq_iff old e,
      bytes_beq_refl d,
      v.backward ip e,
      v.backward (next_ip s) old,
    )
  ]

  allocate-in_pool :
      (ip : ℕ) (e : Bytes)
      → get ip (allocate s d).ip_to_domain ≡ some e
      → (pool_start ≤ ip) × (ip ≤ pool_end)
  allocate-in_pool ip e h =
      ground (arith, get-allocate_ip s d ip, next_ip-range s v, v.in_pool ip e)

  pub allocate_offset : (allocate s d).next_offset ≡ (s.next_offset + 1) % pool_size
  unfolding allocate evict
  allocate_offset = ground (arith, v.offset)

  allocate-IsValid : get d s.domain_to_ip ≡ none → IsValid (allocate s d)
  allocate-IsValid fresh = record {
    offset = omega (arith, allocate_offset);
    forward = allocate-forward;
    backward = allocate-backward fresh;
    in_pool = allocate-in_pool;
  }

  -- A call of `resolve` keeps the maps inverse to each other and within the pool.
  pub resolve-IsValid : IsValid (resolve s d).0
  unfolding resolve
  resolve-IsValid = elim (Option-cases (get d s.domain_to_ip)) [
    | inl fresh ↦ rw (fresh, resolve) (allocate-IsValid fresh)
    | inr (ip, known) ↦ rw (known, resolve) v
  ]

  -- The address that `resolve` returns leads back to the domain, lies in the pool, and is returned
  -- again by the next call, which changes nothing.
  pub lookup-resolve :
      (lookup (resolve s d).0 (resolve s d).1 ≡ some d)
      × (is_fake_ip (resolve s d).1 ≡ true)
      × (resolve (resolve s d).0 d ≡ resolve s d)
  unfolding lookup resolve is_fake_ip
  lookup-resolve = elim (Option-cases (get d s.domain_to_ip)) [
    | inl fresh ↦ ground (
      arith,
      get-allocate_ip s d (next_ip s),
      get-allocate_domain s d d,
      bytes_beq_refl d,
      next_ip-range s v,
    )
    | inr (ip, known) ↦ ground (arith, v.forward d ip, v.in_pool ip d)
  ]
