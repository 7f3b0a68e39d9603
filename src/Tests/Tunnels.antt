-- ===== src/Tests/Tunnels.antt =====
-- An application's connection to a name, by a route through a proxy.
use nsproxy_rs.Base.{
  ℕ, false, ◌+◌, ◌≡◌, refl, inr, [], ◌∷◌, ◌++◌, none, some, Bytes, ret, ok, length, arith,
}
use nsproxy_rs.Base.Text.{codes}
use nsproxy_rs.Config.{Config, proxy_for}
use nsproxy_rs.FakeDns
use nsproxy_rs.FakeDns.{resolve, lookup}
use nsproxy_rs.FakeDns.Invariant.{new-IsValid, resolve-IsValid, lookup-resolve}
use nsproxy_rs.PrefixTrie
use nsproxy_rs.Proxy.{ProxyConfig, socks5, http, domain}
use nsproxy_rs.Proxy.Connect.{Network, to_server, connect}
use nsproxy_rs.Proxy.Stream.{ProxyStream, new}
use nsproxy_rs.Proxy.Stream.Reads.{remaining}
use nsproxy_rs.Proxy.Wire.{socks5_messages, http_request}
use nsproxy_rs.Proxy.Socks5.Steps.{at_point}
use nsproxy_rs.Proxy.Socks5.Session.{server_bytes}
use nsproxy_rs.Rule.{match_domain}
use nsproxy_rs.EventLoop.Socket.{established}
use nsproxy_rs.EventLoop.Outbound.{Listener, listening, connecting, update_listener}
use nsproxy_rs.EventLoop.Outbound.Routing.{target_for-lookup}
use nsproxy_rs.EventLoop.Outbound.Tunnel.{connect-socks5, connect-http}
use nsproxy_rs.Tests.Outbound.{exact}
use nsproxy_rs.Tests.Handshakes.{
  auth, reply, status, headers, server, status-IsLine, headers-IsHeader, status_code, request_fits,
}

abbrev host : Bytes
host = codes "a.com"

abbrev through : ProxyConfig → Config exact
through proxy = record {
  default_proxy = proxy;
  bind_mounts = [];
  publishes = [];
  command = [];
  rules = record { domains = none; domain_actions = []; cidr_trie = PrefixTrie.default };
}

abbrev known : FakeDns.FakeDns
known = (resolve FakeDns.new host).0

abbrev address : ℕ
address = (resolve FakeDns.new host).1

abbrev listener : Listener
listener = record { state = established; local = some (address, 80) }

address-named : lookup known address ≡ some host
address-named = (lookup-resolve FakeDns.new host new-IsValid).0

starts :
    (proxy : ProxyConfig)
    → update_listener exact 0 known (through proxy) listener (listening 0)
      ≡ ret (connecting (domain host 80) proxy)
unfolding update_listener proxy_for match_domain
starts proxy =
    rw
      (
        update_listener,
        target_for-lookup known address 80 host (resolve-IsValid FakeDns.new host new-IsValid)
            address-named,
      )
      refl

abbrev socks5_network : Network
socks5_network d = some (
  at_point (server_bytes 2 reply ++ codes "HI") [] (length (socks5_messages auth 2 host 80) + 5),
  [],
)

connect-socks5_example :
    connect socks5_network false (socks5 (codes "p:1") auth) (domain host 80) ≡ record {
      opened = to_server (codes "p:1") ∷ [];
      outcome = ret (ok (new (at_point (codes "HI") (socks5_messages auth 2 host 80) 5) []));
    }
connect-socks5_example =
    connect-socks5 exact (through (socks5 (codes "p:1") auth)) known listener 0 0 address 80 host
      (domain host 80) (socks5 (codes "p:1") auth) socks5_network (codes "p:1") auth [] 2 reply
      (codes "HI") 5 (resolve-IsValid FakeDns.new host new-IsValid) address-named refl
      (starts (socks5 (codes "p:1") auth)) refl refl (omega arith, omega arith) (omega arith)
      (inr (refl, refl)) (omega arith)

abbrev http_network : Network
http_network d = some (server, 3 ∷ 1 ∷ [])

connect-http_example :
    (p : ProxyStream) × (connect http_network false (http (codes "p:1") none) (domain host 80)
      ≡ record { opened = to_server (codes "p:1") ∷ []; outcome = ret (ok p) })
    × (remaining p ≡ codes "HI")
    × (p.inner.sent ≡ [] ++ http_request none host 80)
connect-http_example =
    connect-http exact (through (http (codes "p:1") none)) known listener 0 0 address 80 host
      (domain host 80) (http (codes "p:1") none) http_network (codes "p:1") none (3 ∷ 1 ∷ []) server
      status headers (codes "HI") (resolve-IsValid FakeDns.new host new-IsValid) address-named refl
      (starts (http (codes "p:1") none)) refl refl request_fits refl status-IsLine status_code
      headers-IsHeader
