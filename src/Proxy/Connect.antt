-- ===== src/Proxy/Connect.antt =====
-- src/proxy/mod.rs, direct.rs, socks5.rs and http.rs: how a route opens a connection to a target. The
-- network is a parameter: for each destination a connection, or none if it cannot be opened. For the
-- buffered reader of the HTTP handshake it also gives how the answer arrives.
use nsproxy_rs.Base.{
  ℕ, Bool, true, false, List, [], ◌∷◌, Option, none, some, Bytes, Exec, ret, Result, ok, err,
}
use nsproxy_rs.Proxy.{ProxyConfig, direct, socks5, http, ProxyTarget, domain, ip}
use nsproxy_rs.Proxy.Stream.{TcpStream, ProxyStream, new, Failure, connect_failed, timed_out}
use nsproxy_rs.Proxy.Http.{do_connect}
use nsproxy_rs.Proxy.Socks5
use nsproxy_rs.Std.Display.{IpAddr}

-- What `TcpStream::connect` gets: the "host:port" of a proxy, an address, or a name that the host
-- resolves.
pub data Destination : Type 0 where
  to_server : Bytes → Destination
  to_address : IpAddr → ℕ → Destination
  to_name : Bytes → ℕ → Destination

abbrev pub Network : Type 0
Network = Destination → Option (TcpStream × List ℕ)

-- The destinations that were asked for, and the result.
pub record Attempt : Type 0 where
  pub opened : List Destination
  pub outcome : Exec (Result Failure ProxyStream)

abbrev pub Handshake : Type 0
Handshake = List ℕ → TcpStream → Exec (Result Failure ProxyStream)

abbrev pub with_stream : Handshake → Option (TcpStream × List ℕ) → Exec (Result Failure ProxyStream)
with_stream handshake none = ret (err connect_failed)
with_stream handshake (some (stream, arrivals)) = handshake arrivals stream

abbrev pub open_stream : Network → Destination → Handshake → Attempt
open_stream net d handshake = record { opened = d ∷ []; outcome = with_stream handshake (net d) }

abbrev pub no_handshake : Handshake
no_handshake arrivals stream = ret (ok (new stream []))

-- `DirectConnector::connect`.
unfoldable pub connect_direct : Network → ProxyTarget → Attempt
connect_direct net (ip addr port) = open_stream net (to_address addr port) no_handshake
connect_direct net (domain host port) = open_stream net (to_name host port) no_handshake

unfoldable pub connect_inner : Network → ProxyConfig → ProxyTarget → Attempt
unfolding connect_direct
connect_inner net direct target = connect_direct net target
connect_inner net (socks5 addr auth) target =
    open_stream net (to_server addr) (λ arrivals stream. ret (Socks5.connect auth target stream).0)
connect_inner net (http addr auth) target =
    open_stream net (to_server addr) (do_connect auth target)

-- `expired` is whether `CONNECT_TIMEOUT` passes before `connect_inner` ends.
unfoldable pub connect : Network → Bool → ProxyConfig → ProxyTarget → Attempt
connect net false proxy target = connect_inner net proxy target
connect net true proxy target = record {
  opened = (connect_inner net proxy target).opened;
  outcome = ret (err timed_out);
}
