-- ===== src/EventLoop/Dns/Answers.antt =====
-- The DNS interceptor answers every datagram, and its answers lead back to the names asked for.
use nsproxy_rs.Base.{
  ℕ, ◌≡◌, refl, inl, inr, List, [], ◌∷◌, ◌++◌, Option, none, some, Bytes, ret, ◌==◌, Bool-cases,
  Option-cases,
}
use nsproxy_rs.FakeDns.{FakeDns, resolve, lookup, is_fake_ip}
use nsproxy_rs.FakeDns.Invariant.{IsValid, resolve-IsValid, lookup-resolve}
use nsproxy_rs.DnsPacket.{parse_query, build_a_response}
use nsproxy_rs.DnsPacket.Safety.{parse_query_total}
use nsproxy_rs.Proxy.{domain, ip}
use nsproxy_rs.Std.Display.{v4}
use nsproxy_rs.EventLoop.Dns.{
  Received, failed, datagram, respond, answer, process, send, target_for,
}

respond-IsValid :
    (s : FakeDns) (id : ℕ) (host : Bytes) (qtype : ℕ)
    → IsValid s
    → IsValid (respond s id host qtype).0
unfolding respond
respond-IsValid s id host qtype v = elim (Bool-cases (qtype == 1)) [
  | inl e ↦ rw (respond, e) (resolve-IsValid s host v)
  | inr e ↦ rw (respond, e) v
]

answer-IsValid :
    (s : FakeDns) (bytes : Bytes)
    → IsValid s
    → (a : FakeDns × Option Bytes) × (answer s bytes ≡ ret a) × IsValid a.0
unfolding answer
answer-IsValid s bytes v =
    let (query, e) = parse_query_total bytes in
    elim (Option-cases query) [
      | inl f ↦ ((s, none), rw (answer, e, f) refl, v)
      | inr (q, f) ↦ (
        ((respond s q.0 q.1 q.2).0, some (respond s q.0 q.1 q.2).1),
        rw (answer, e, f) refl,
        respond-IsValid s q.0 q.1 q.2 v,
      )
    ]

-- Whatever the socket delivers, `process` returns, and the table stays well formed.
pub process-IsValid :
    (s : FakeDns) (received : List Received)
    → IsValid s
    → (r : FakeDns × List (Bytes × ℕ)) × (process s received ≡ ret r) × IsValid r.0
unfolding process
process-IsValid s [] v = ((s, []), refl, v)
process-IsValid s (failed ∷ rest) v = ((s, []), refl, v)
process-IsValid s (datagram bytes endpoint can_send ∷ rest) v =
    let (a, e, w) = answer-IsValid s bytes v in
    let (r, f, u) = process-IsValid a.0 rest w in
    ((r.0, send a.1 endpoint can_send ++ r.1), rw (process, e, f) refl, u)

-- The address in the answer to an A query leads back to the name that was asked for, at every port.
pub answer-target_for :
    (s : FakeDns) (bytes : Bytes) (id port : ℕ) (host : Bytes)
    → IsValid s
    → parse_query bytes ≡ ret (some (id, host, 1))
    → (s' : FakeDns) × (addr : ℕ) × (answer s bytes
        ≡ ret (s', some (build_a_response id host addr)))
      × (target_for s' addr port ≡ domain host port)
unfolding answer target_for respond
answer-target_for s bytes id port host v h =
    let (back, fake, again) = lookup-resolve s host v in
    ((resolve s host).0, (resolve s host).1, rw (answer, h) refl, rw (target_for, fake, back) refl)

-- An address that is not in the pool, or has no name, is connected to as it is; a query of another
-- type changes nothing and gets an empty answer.
pub target_for_ip :
    (s : FakeDns) (addr port : ℕ)
    → lookup s addr ≡ none
    → target_for s addr port ≡ ip (v4 addr) port
unfolding target_for
target_for_ip s addr port h = elim (Bool-cases (is_fake_ip addr)) [
  | inl e ↦ rw (target_for, e, h) refl
  | inr e ↦ rw (target_for, e) refl
]
