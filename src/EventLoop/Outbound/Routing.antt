-- ===== src/EventLoop/Outbound/Routing.antt =====
-- The route of a connection that an application opens: the DNS table, the rules and the listeners
-- together.
use nsproxy_rs.Base.{ℕ, ◌≡◌, refl, true, List, some, Bytes, ret, ok, arith, bytes_eq, nat_eq}
use nsproxy_rs.Config.{Config, unwrap_or, proxy_for-from_specs}
use nsproxy_rs.FakeDns.{FakeDns, lookup, is_fake_ip}
use nsproxy_rs.FakeDns.Invariant.{IsValid}
use nsproxy_rs.Proxy.{domain}
use nsproxy_rs.Rule.{Regex, from_specs}
use nsproxy_rs.Rule.Matching.{Rules, Reads}
use nsproxy_rs.Rule.Domains.{first_match, domain_table}
use nsproxy_rs.EventLoop.Dns.{target_for}
use nsproxy_rs.EventLoop.Socket.{is_open}
use nsproxy_rs.EventLoop.Outbound.{listening, connecting, Listener, update_listener}

is_fake_ip-lookup :
    (s : FakeDns) (addr : ℕ) (host : Bytes)
    → IsValid s
    → lookup s addr ≡ some host
    → is_fake_ip addr ≡ true
unfolding is_fake_ip lookup
is_fake_ip-lookup s addr host v h = ground (arith, v.in_pool addr host h)

pub target_for-lookup :
    (s : FakeDns) (addr port : ℕ) (host : Bytes)
    → IsValid s
    → lookup s addr ≡ some host
    → target_for s addr port ≡ domain host port
unfolding target_for
target_for-lookup s addr port host v h = rw (target_for, is_fake_ip-lookup s addr host v h, h) refl

-- When an application has connected to an address that the DNS table gave for a name, the connection
-- is opened to that name, not to an address, by the route of the first domain rule that matches the
-- name, and by the default route if none does.
pub update_listener-named :
    (rx : Regex) (specs : List Bytes) (config : Config rx) (dns : FakeDns) (l : Listener)
    (now created addr port : ℕ) (host : Bytes)
    → from_specs rx specs ≡ ok config.rules
    → IsValid dns
    → lookup dns addr ≡ some host
    → is_open l.state ≡ true
    → l.local ≡ some (addr, port)
    → (rs : Rules) × Reads rx specs rs
      × (update_listener rx now dns config l (listening created)
          ≡ ret (
              connecting
                (domain host port)
                (unwrap_or (first_match rx (domain_table rx rs) host) config.default_proxy)))
unfolding update_listener
update_listener-named rx specs config dns l now created addr port host h v known opened local =
    let (rs, reads, e) = proxy_for-from_specs rx specs config (domain host port) h tt in
    (
      rs,
      reads,
      rw (update_listener, opened, local, target_for-lookup dns addr port host v known, e) refl,
    )
