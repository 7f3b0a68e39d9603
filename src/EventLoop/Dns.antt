-- ===== src/EventLoop/Dns.antt =====
-- src/event_loop/dns.rs: the intercepted DNS socket. The UDP socket of smoltcp is not part of the
-- repository: what it delivers is a list of results of `recv_slice`, each with the answer that
-- `can_send` gives for it.
pub mod Answers
use nsproxy_rs.Base.{
  ℕ, Bool, true, List, [], ◌∷◌, ◌++◌, Option, none, some, Bytes, Exec, ret, then_exec, ◌==◌,
  if◌then◌else◌,
}
use nsproxy_rs.FakeDns
use nsproxy_rs.FakeDns.{FakeDns, resolve, lookup, is_fake_ip}
use nsproxy_rs.DnsPacket.{parse_query, build_a_response, build_empty_response}
use nsproxy_rs.Proxy.{ProxyTarget, domain, ip}
use nsproxy_rs.Std.Display.{IpAddr, v4}

-- A result of `recv_slice`: an error, or the datagram, its endpoint, and whether the socket can send.
pub data Received : Type 0 where
  failed : Received
  datagram : Bytes → ℕ → Bool → Received

-- The response to a question.
unfoldable pub respond : FakeDns → ℕ → Bytes → ℕ → FakeDns × Bytes
respond s id host qtype =
    if qtype == 1
    then (let r = resolve s host in (r.0, build_a_response id host r.1))
    else (s, build_empty_response id host qtype)

-- The body of the loop of `process` for one datagram: the new table and the response.
unfoldable pub answer : FakeDns → Bytes → Exec (FakeDns × Option Bytes)
answer s bytes = then_exec (parse_query bytes) (λ query. elim query [
  | none ↦ ret (s, none)
  | some (id, host, qtype) ↦ let r = respond s id host qtype in ret (r.0, some r.1)
])

-- `if socket.can_send()`: the datagram that is sent, with its endpoint.
abbrev pub send : Option Bytes → ℕ → Bool → List (Bytes × ℕ)
send none endpoint can_send = []
send (some response) endpoint can_send = if can_send then (response, endpoint) ∷ [] else []

abbrev prepend : List (Bytes × ℕ) → FakeDns × List (Bytes × ℕ) → FakeDns × List (Bytes × ℕ)
prepend sent r = (r.0, sent ++ r.1)

-- The loop of `process`: the table after it and what it sends.
unfoldable pub process : FakeDns → List Received → Exec (FakeDns × List (Bytes × ℕ))
process s [] = ret (s, [])
process s (failed ∷ rest) = ret (s, [])
process s (datagram bytes endpoint can_send ∷ rest) =
    then_exec (answer s bytes)
      (λ a. then_exec (process a.0 rest) (λ r. ret (prepend (send a.1 endpoint can_send) r)))

unfoldable pub target_for : FakeDns → ℕ → ℕ → ProxyTarget
target_for s addr port =
    if is_fake_ip addr
    then elim (lookup s addr) [ some host ↦ domain host port | none ↦ ip (v4 addr) port ]
    else ip (v4 addr) port
