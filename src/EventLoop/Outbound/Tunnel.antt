-- ===== src/EventLoop/Outbound/Tunnel.antt =====
-- The way of an application's connection to its tunnel: the DNS table, the listener, the route and the
-- handshake together.
use nsproxy_rs.Base.{
  ℕ, ◌-◌, leb, ◌≢◌, All, ◌+◌, ◌≤◌, ◌≡◌, refl, false, List, [], ◌∷◌, ◌++◌, Option, Bool-cases, inl,
  inr, some, Bytes, length, ret, ok, then_exec-eq-ret, sym, ◌∙◌, ap,
}
use nsproxy_rs.Config.{Config, proxy_for}
use nsproxy_rs.FakeDns.{FakeDns, lookup}
use nsproxy_rs.FakeDns.Invariant.{IsValid}
use nsproxy_rs.Proxy.{ProxyConfig, socks5, http, ProxyTarget, domain}
use nsproxy_rs.Proxy.Connect.{Network, to_server, connect, connect_inner}
use nsproxy_rs.Proxy.Stream.{TcpStream, ProxyStream, new}
use nsproxy_rs.Proxy.Stream.Reads.{remaining}
use nsproxy_rs.Proxy.Http.{crlf, trim_end, parse_status_code}
use nsproxy_rs.Proxy.Http.Response.{IsLine, IsHeader, header_bytes, do_connect-header_bytes}
use nsproxy_rs.Proxy.Wire.{
  socks5_messages, socks5_messages-script, http_request, http_request-request,
}
use nsproxy_rs.Proxy.Socks5.Steps.{at_point, IsBound, FitsCredentials}
use nsproxy_rs.Proxy.Socks5.Session.{Reply, server_bytes, Offers, connect-server_bytes}
use nsproxy_rs.Rule.{Regex}
use nsproxy_rs.EventLoop.Dns.{target_for}
use nsproxy_rs.EventLoop.Socket.{is_open, is_over, tcp_handshake_timeout}
use nsproxy_rs.EventLoop.Outbound.{State, listening, connecting, closing, Listener, update_listener}
use nsproxy_rs.EventLoop.Outbound.Routing.{target_for-lookup}

same_target :
    (a b : ProxyTarget) (p q : ProxyConfig) → ret (connecting a p) ≡ ret (connecting b q) → a ≡ b
same_target a b p q e = cc

not_connecting :
    {t : ProxyTarget} {p : ProxyConfig} (s : State)
    → s ≢ connecting t p
    → ret s ≢ ret (connecting t p)
not_connecting s n e = n (cc)

module _ (rx : Regex) (config : Config rx) (dns : FakeDns) (l : Listener)
    (now created addr port : ℕ) (host : Bytes) (target : ProxyTarget) (proxy : ProxyConfig) where
  no_connect :
      is_open l.state ≡ false
      → update_listener rx now dns config l (listening created) ≢ ret (connecting target proxy)
  unfolding update_listener
  no_connect shut h = elim (Bool-cases (is_over l.state)) [
    | inl over ↦ not_connecting closing (λ e. cc) (rw (update_listener, shut, over) at h)
    | inr waits ↦ elim (Bool-cases (leb tcp_handshake_timeout (now - created))) [
      | inl late ↦ not_connecting closing (λ e. cc) (rw (update_listener, shut, waits, late) at h)
      | inr early ↦
          not_connecting (listening created) (λ e. cc)
            (rw (update_listener, shut, waits, early) at h)
    ]
  ]

  connecting-target :
      IsValid dns
      → lookup dns addr ≡ some host
      → l.local ≡ some (addr, port)
      → update_listener rx now dns config l (listening created) ≡ ret (connecting target proxy)
      → target ≡ domain host port
  unfolding update_listener
  connecting-target v known local h = elim (Bool-cases (is_open l.state)) [
    | inl opened ↦
        let (p, routed, e) =
          then_exec-eq-ret (proxy_for rx config (target_for dns addr port)) _
            (rw (update_listener, opened, local) at h) in
        let same : target_for dns addr port ≡ target = same_target _ _ _ _ e in
        sym same ∙ target_for-lookup dns addr port host v known
    | inr shut ↦ absurd (no_connect shut h)
  ]

  -- An application has connected to an address that the DNS table gave for a name, and its connection
  -- is to go through a SOCKS5 proxy. If that proxy follows the protocol, then nothing but the proxy is
  -- connected to, it is sent the greeting, the credentials
  -- if it selected them, and the request with the name and port, byte by byte as the protocol says, and
  -- the tunnel gives the bytes behind the handshake.
  pub connect-socks5 :
      (net : Network) (server : Bytes) (auth : Option (Bytes × Bytes)) (arrivals : List ℕ)
      (method : ℕ) (r : Reply) (tail : Bytes) (left : ℕ)
      → IsValid dns
      → lookup dns addr ≡ some host
      → l.local ≡ some (addr, port)
      → update_listener rx now dns config l (listening created) ≡ ret (connecting target proxy)
      → proxy ≡ socks5 server auth
      → net (to_server server)
        ≡ some (
          at_point
              (server_bytes method r ++ tail)
              []
              (length (socks5_messages auth method host port) + left),
          arrivals,
        )
      → FitsCredentials auth
      → length host ≤ 255
      → Offers auth method
      → IsBound r.bound
      → connect net false proxy target ≡ record {
        opened = to_server server ∷ [];
        outcome = ret (ok (new (at_point tail (socks5_messages auth method host port) left) []));
      }
  unfolding connect connect_inner
  connect-socks5 net server auth arrivals method r tail left v known local h route reached c t o b =
      let named = connecting-target v known local h in
      let sent = socks5_messages-script auth method host port c t in
      let session = connect-server_bytes auth (domain host port) method r tail [] left c t o b in
      rw (named, route, reached) (rw (← sent) (rw session refl))

  -- An application has connected to an address that the DNS table gave for a name, and its connection
  -- is to go through an HTTP proxy. If that proxy takes the request and answers with status 200 and any
  -- header lines, then, however the answer arrives, nothing but the proxy is connected to, it is sent
  -- the CONNECT request for the name and port as the protocol says, and the tunnel gives exactly the bytes behind the blank line.
  pub connect-http :
      (net : Network) (server : Bytes) (auth : Option (Bytes × Bytes)) (arrivals : List ℕ)
      (stream : TcpStream) (status : Bytes) (headers : List Bytes) (tail : Bytes)
      → IsValid dns
      → lookup dns addr ≡ some host
      → l.local ≡ some (addr, port)
      → update_listener rx now dns config l (listening created) ≡ ret (connecting target proxy)
      → proxy ≡ http server auth
      → net (to_server server) ≡ some (stream, arrivals)
      → length (http_request auth host port) ≤ stream.accepts
      → stream.input ≡ (status ++ crlf) ++ header_bytes headers tail
      → IsLine status
      → parse_status_code (trim_end (status ++ crlf)) ≡ ok 200
      → All IsHeader headers
      → (p : ProxyStream) × (connect net false proxy target
          ≡ record { opened = to_server server ∷ []; outcome = ret (ok p) })
        × (remaining p ≡ tail)
        × (p.inner.sent ≡ stream.sent ++ http_request auth host port)
  unfolding connect connect_inner
  connect-http net server auth arrivals stream status headers tail v known local h route reached
        fits e i c a =
      let named = connecting-target v known local h in
      let same = http_request-request auth host port in
      let (p, run, rest, sent) =
        do_connect-header_bytes auth (domain host port) arrivals stream status headers tail
          (rw same fits) e i c a in
      (p, rw (named, route, reached, run) refl, rest, sent ∙ ap (◌++◌ stream.sent) same)
