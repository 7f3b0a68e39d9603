-- ===== src/Publish/Texts.antt =====
-- src/publish.rs: the texts that stand for a publication, without reference to the parser.
use nsproxy_rs.Base.{
  ℕ, ◌≡◌, ◌≢◌, refl, sym, ◌⊎◌, inl, inr, Bool-cases, false, not, List, [], ◌∷◌, ◌++◌, some, Bytes,
  ok, guard, or_fail, ◌==◌, arith, All, >>=-eq-ok, or_fail-eq-ok, guard-eq-ok, nat_beq_iff,
}
use nsproxy_rs.Base.Text.{codes, contains}
use nsproxy_rs.Std.Number.{parse_uint, u16_max}
use nsproxy_rs.Std.Address.{parse_ipv4}
use nsproxy_rs.Publish.{PublishSpec, invalid_port, port_zero, parse_port}

-- A number that `u16` holds, and not 0.
abbrev pub SpellsPort : Bytes → ℕ → Type 0
SpellsPort text port = (parse_uint u16_max text ≡ some port) × (port ≢ 0)

abbrev pub Apart : List Bytes → Type 0
Apart pieces = All (λ q. contains b':' q ≡ false) pieces

-- HOST_PORT:NS_PORT on every address, or HOST_IP:HOST_PORT:NS_PORT.
abbrev pub SpellsAddress : Bytes → PublishSpec → Type 0
SpellsAddress address s =
    ((h : Bytes) × (n : Bytes) × (address ≡ h ++ b':' ∷ n)
      × Apart (h ∷ n ∷ [])
      × (s.host_ip ≡ 0)
      × SpellsPort h s.host_port
      × SpellsPort n s.namespace_port)
    ⊎ ((a : Bytes) × (h : Bytes) × (n : Bytes) × (address ≡ a ++ b':' ∷ (h ++ b':' ∷ n))
        × Apart (a ∷ h ∷ n ∷ [])
        × (parse_ipv4 a ≡ some s.host_ip)
        × SpellsPort h s.host_port
        × SpellsPort n s.namespace_port)

-- An address, with "/tcp" or nothing behind it.
abbrev pub Spells : Bytes → PublishSpec → Type 0
Spells raw s =
    (address : Bytes) × (contains b'/' address ≡ false)
    × ((raw ≡ address) ⊎ (raw ≡ address ++ codes "/tcp"))
    × SpellsAddress address s

pub parse_port-eq-ok : (text : Bytes) (port : ℕ) → parse_port text ≡ ok port → SpellsPort text port
unfolding parse_port
parse_port-eq-ok text port h =
    let (p, e, h1) = >>=-eq-ok (or_fail (parse_uint u16_max text) invalid_port) _ h in
    let (u, g, h2) = >>=-eq-ok (guard (not (p == 0)) port_zero) _ h1 in
    let same : p ≡ port = cc in
    (
      rw (sym same) (or_fail-eq-ok (parse_uint u16_max text) invalid_port e),
      λ z. ground (arith, same, z, guard-eq-ok (not (p == 0)) port_zero g),
    )

pub SpellsPort-parse_port :
    (text : Bytes) (port : ℕ) → SpellsPort text port → parse_port text ≡ ok port
unfolding parse_port
SpellsPort-parse_port text port (e, n) = elim (Bool-cases (port == 0)) [
  | inl z ↦ absurd (n ((nat_beq_iff port 0).0 z))
  | inr z ↦ rw (e, z) refl
]
