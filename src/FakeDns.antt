-- ===== src/FakeDns.antt =====
-- src/fake_dns.rs: `FakeDns`, the pool of synthetic addresses and the two maps between domains and
-- addresses. A domain is its UTF-8 bytes and an address its 32-bit number. The packet helpers of
-- the same file are in DnsPacket.
pub mod Invariant
pub mod Lifetime
use nsproxy_rs.Base.{
  ℕ, ◌+◌, ◌-◌, ◌*◌, ◌%◌, ◌^◌, Bool, ◌&&◌, List, [], ◌∷◌, Option, none, some, Bytes, leb, nat_eq,
  bytes_eq,
}
use nsproxy_rs.Base.Map.{get, insert, remove}

-- `u32::from_be_bytes`.
abbrev pub u32_from_be_bytes : ℕ → ℕ → ℕ → ℕ → ℕ
u32_from_be_bytes a b c d = a * 2 ^ 24 + b * 2 ^ 16 + c * 2 ^ 8 + d

abbrev pub pool_start : ℕ
pool_start = u32_from_be_bytes 198 18 0 1

abbrev pub pool_end : ℕ
pool_end = u32_from_be_bytes 198 19 255 254

abbrev pub pool_size : ℕ
pool_size = pool_end - pool_start + 1

pub record FakeDns : Type 0 where
  pub domain_to_ip : List (Bytes × ℕ)
  pub ip_to_domain : List (ℕ × Bytes)
  pub next_offset : ℕ

unfoldable pub new : FakeDns
new = record { domain_to_ip = []; ip_to_domain = []; next_offset = 0 }

-- The block of `resolve` that drops the previous mapping of a slot.
unfoldable pub evict : ℕ → FakeDns → FakeDns
evict ip s = elim (get ip s.ip_to_domain) [
  | none ↦ record s { ip_to_domain = remove ip s.ip_to_domain }
  | some old_domain ↦ record s {
    ip_to_domain = remove ip s.ip_to_domain;
    domain_to_ip = remove old_domain s.domain_to_ip;
  }
]

-- The address that the next allocation takes.
abbrev pub next_ip : FakeDns → ℕ
next_ip s = (pool_start + s.next_offset) % 2 ^ 32

-- The slow path of `resolve`.
unfoldable pub allocate : FakeDns → Bytes → FakeDns
allocate s domain =
    let ip = next_ip s in
    let e = evict ip (record s { next_offset = (s.next_offset + 1) % 2 ^ 32 % pool_size }) in
    record e {
      ip_to_domain = insert ip domain e.ip_to_domain;
      domain_to_ip = insert domain ip e.domain_to_ip;
    }

unfoldable pub resolve : FakeDns → Bytes → FakeDns × ℕ
resolve s domain = elim (get domain s.domain_to_ip) [
  | some ip ↦ (s, ip)
  | none ↦ (allocate s domain, next_ip s)
]

unfoldable pub lookup : FakeDns → ℕ → Option Bytes
lookup s ip = get ip s.ip_to_domain

unfoldable pub is_fake_ip : ℕ → Bool
is_fake_ip ip = leb pool_start ip && leb ip pool_end

-- A sequence of calls of `resolve`.
pub resolve_all : FakeDns → List Bytes → FakeDns
resolve_all s [] = s
resolve_all s (d ∷ ds) = resolve_all (resolve s d).0 ds
