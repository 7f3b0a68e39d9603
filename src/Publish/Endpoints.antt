-- ===== src/Publish/Endpoints.antt =====
-- Which lists of specifications are accepted: ports in range, and no endpoint published twice.
use nsproxy_rs.Base.{
  ℕ, Bool-cases, inl, inr, ◌&&◌, ◌^◌, ◌≤◌, ◌<◌, ◌≡◌, refl, ap, subst, All, ◌↔◌, Bool, true, false,
  not, List, [], ◌∷◌, map, Option, some, Bytes, ok, guard, or_fail, ◌==◌, bytes_beq, arith,
  >>=-eq-ok, or_fail-eq-ok, guard-eq-ok, Ensures, failed, holds, Ensures-bind, Ensures-ok,
}
use nsproxy_rs.Base.Text.{codes, split}
use nsproxy_rs.Std.Number.{parse_uint, parse_uint_le, u16_max}
use nsproxy_rs.Std.Address.{parse_ipv4, parse_ipv4_lt}
use nsproxy_rs.Publish.Texts.{Spells}
use nsproxy_rs.Publish.Spelled.{parse_publish_spec_iff}
use nsproxy_rs.Publish.{
  PublishSpec, Endpoint, host_addr, invalid_port, invalid_address, port_zero, duplicate_endpoint,
  parse_port, parse_fields, parse_publish_spec, contains_endpoint, split_protocol, parse_specs_from,
  parse_publish_specs, bind_failed, nonblocking_failed, bind_publish_specs, BoundPublish,
  unsupported_protocol,
}

abbrev IsPort : ℕ → Type 0
IsPort p = (1 ≤ p) × (p ≤ 65535)

-- A specification of a TCP endpoint on IPv4: no port is 0, and all fit their types.
abbrev pub InRange : PublishSpec → Type 0
InRange s = (s.host_ip < 2 ^ 32) × IsPort s.host_port × IsPort s.namespace_port

parse_port-IsPort : (value : Bytes) → Ensures IsPort (parse_port value)
unfolding parse_port
parse_port-IsPort value = Ensures-bind (or_fail (parse_uint u16_max value) invalid_port) _ λ port e.
    Ensures-bind (guard (not (port == 0)) port_zero) _ λ u f. holds (
      ground (
        arith,
        parse_uint_le u16_max value port (or_fail-eq-ok (parse_uint u16_max value) invalid_port e),
        guard-eq-ok (not (port == 0)) port_zero f,
      ))

parse_fields-InRange : (fields : List Bytes) → Ensures InRange (parse_fields fields)
unfolding parse_fields
parse_fields-InRange (h ∷ n ∷ []) = Ensures-bind (parse_port h) _ λ p e.
    Ensures-bind (parse_port n) _ λ q f.
      holds (omega arith, Ensures-ok (parse_port-IsPort h) e, Ensures-ok (parse_port-IsPort n) f)
parse_fields-InRange (a ∷ h ∷ n ∷ []) =
    Ensures-bind (or_fail (parse_ipv4 a) invalid_address) _ λ ip d.
      Ensures-bind (parse_port h) _ λ p e. Ensures-bind (parse_port n) _ λ q f. holds (
        parse_ipv4_lt a ip (or_fail-eq-ok (parse_ipv4 a) invalid_address d),
        Ensures-ok (parse_port-IsPort h) e,
        Ensures-ok (parse_port-IsPort n) f,
      )
parse_fields-InRange _ = failed _

-- A specification that is accepted has an address of 32 bits and ports from 1 to 65535.
pub parse_publish_spec-InRange :
    (raw : Bytes) (s : PublishSpec) → parse_publish_spec raw ≡ ok s → InRange s
unfolding parse_publish_spec
parse_publish_spec-InRange raw s h =
    Ensures-ok
      (Ensures-bind (guard (bytes_beq (split_protocol raw).1 (codes "tcp")) unsupported_protocol)
        (λ u. parse_fields (split b':' (split_protocol raw).0))
        λ u e. parse_fields-InRange (split b':' (split_protocol raw).0))
      h

-- Each text stands for the specification at its position.
abbrev pub Parses : List Bytes → List PublishSpec → Type 0
Parses [] [] = Unit
Parses (raw ∷ raws) (s ∷ ss) = Spells raw s × Parses raws ss
Parses _ _ = ⊥

-- They publish the same address and port of the host.
abbrev pub SameEndpoint : PublishSpec → PublishSpec → Type 0
SameEndpoint s u = (s.host_ip ≡ u.host_ip) × (s.host_port ≡ u.host_port)

-- No specification has the endpoint of an earlier one, or of one of those seen.
abbrev pub Fresh : List PublishSpec → List PublishSpec → Type 0
Fresh seen [] = Unit
Fresh seen (s ∷ ss) = All (λ u. SameEndpoint s u → ⊥) seen × Fresh (s ∷ seen) ss

unseen-apart :
    (s : PublishSpec) (seen : List PublishSpec)
    → contains_endpoint (host_addr s) (map host_addr seen) ≡ false
    → All (λ u. SameEndpoint s u → ⊥) seen
unseen-apart s [] h = tt
unseen-apart s (u ∷ seen) h = (λ same. ground (arith, same), unseen-apart s seen (ground arith))

apart-unseen :
    (s : PublishSpec) (seen : List PublishSpec)
    → All (λ u. SameEndpoint s u → ⊥) seen
    → contains_endpoint (host_addr s) (map host_addr seen) ≡ false
apart-unseen s [] h = refl
apart-unseen s (u ∷ seen) (apart, rest) =
    elim (Bool-cases (s.host_ip == u.host_ip && s.host_port == u.host_port)) [
      | inl same ↦ absurd (apart (ground arith, ground arith))
      | inr other ↦ rw other (apart-unseen s seen rest)
    ]

from-accepted :
    (seen : List PublishSpec) (raws : List Bytes) (ss : List PublishSpec)
    → parse_specs_from (map host_addr seen) raws ≡ ok ss
    → Parses raws ss × Fresh seen ss
unfolding parse_specs_from
from-accepted seen [] [] h = (tt, tt)
from-accepted seen [] (s ∷ ss) h = cc
from-accepted seen (raw ∷ raws) ss h =
    let (spec, parsed, h1) = >>=-eq-ok (parse_publish_spec raw) _ h in
    let (u, unseen, h2) =
      >>=-eq-ok
        (guard (not (contains_endpoint (host_addr spec) (map host_addr seen))) duplicate_endpoint) _
        h1 in
    let (rest, more, h3) = >>=-eq-ok (parse_specs_from (map host_addr (spec ∷ seen)) raws) _ h2 in
    let (parses, fresh) = from-accepted (spec ∷ seen) raws rest more in
    let e : spec ∷ rest ≡ ss = cc in
    subst (λ l. Parses (raw ∷ raws) l × Fresh seen l) e
      (
        ((parse_publish_spec_iff raw spec).0 parsed, parses),
        (
          unseen-apart spec seen (
              ground (
                arith,
                guard-eq-ok (not (contains_endpoint (host_addr spec) (map host_addr seen)))
                    duplicate_endpoint unseen,
              )),
          fresh,
        ),
      )

accepted-from :
    (seen : List PublishSpec) (raws : List Bytes) (ss : List PublishSpec)
    → Parses raws ss
    → Fresh seen ss
    → parse_specs_from (map host_addr seen) raws ≡ ok ss
unfolding parse_specs_from
accepted-from seen [] [] p f = refl
accepted-from seen (raw ∷ raws) (s ∷ ss) (e, p) (d, f) =
    rw
      (
        (parse_publish_spec_iff raw s).1 e,
        apart-unseen s seen d,
        accepted-from (s ∷ seen) raws ss p f,
      )
      refl
accepted-from seen [] (s ∷ ss) p f = absurd p
accepted-from seen (raw ∷ raws) [] p f = absurd p

-- A command line is accepted exactly if every text stands for a specification and no two have the same
-- host address and host port, and the result has the specifications in order.
pub parse_publish_specs_iff :
    (raws : List Bytes) (ss : List PublishSpec)
    → (parse_publish_specs raws ≡ ok ss) ↔ (Parses raws ss × Fresh [] ss)
unfolding parse_publish_specs
parse_publish_specs_iff raws ss = (from-accepted [] raws ss, λ h. accepted-from [] raws ss h.0 h.1)

module _ {Listener : Type 0} (bind : Endpoint → Option Listener)
    (set_nonblocking : Listener → Bool) where
  -- The listener that the system returned for the endpoint, which does not block.
  abbrev pub IsBound : BoundPublish Listener → Type 0
  IsBound b = (bind (host_addr b.spec) ≡ some b.listener) × (set_nonblocking b.listener ≡ true)

  abbrev Binds : List PublishSpec → List (BoundPublish Listener) → Type 0
  Binds ss bound = (map (λ b. b.spec) bound ≡ ss) × All IsBound bound

  bind-Binds :
      (ss : List PublishSpec) → Ensures (Binds ss) (bind_publish_specs bind set_nonblocking ss)
  unfolding bind_publish_specs
  bind-Binds [] = holds (refl, tt)
  bind-Binds (s ∷ ss) = Ensures-bind (or_fail (bind (host_addr s)) bind_failed) _ λ listener e.
      Ensures-bind (guard (set_nonblocking listener) nonblocking_failed) _ λ u f.
        Ensures-bind (bind_publish_specs bind set_nonblocking ss) _ λ bound g.
          let (specs, each) = Ensures-ok (bind-Binds ss) g in
          holds (
            ap (◌∷◌ s) specs,
            (
              (
                or_fail-eq-ok (bind (host_addr s)) bind_failed e,
                guard-eq-ok (set_nonblocking listener) nonblocking_failed f,
              ),
              each,
            ),
          )

  -- If the binding succeeds, there is one listener for each specification, in order, and it is
  -- what the system returned for that endpoint, made nonblocking.
  pub bind_publish_specs_lem :
      (ss : List PublishSpec) (bound : List (BoundPublish Listener))
      → bind_publish_specs bind set_nonblocking ss ≡ ok bound
      → (map (λ b. b.spec) bound ≡ ss) × All IsBound bound
  bind_publish_specs_lem ss bound h = Ensures-ok (bind-Binds ss) h
