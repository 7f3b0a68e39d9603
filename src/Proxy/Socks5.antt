-- ===== src/Proxy/Socks5.antt =====
-- src/proxy/socks5.rs: the handshake with a SOCKS5 proxy. Log calls have no effect here.
pub mod Steps
pub mod Session
pub mod Sent
use nsproxy_rs.Base.{
  ℕ, ◌+◌, ◌%◌, Bool, true, false, not, List, [], ◌∷◌, ◌++◌, Option, none, some, Bytes, ok, err,
  length, ltb, ◌==◌, if◌then◌else◌, get_elem?,
}
use nsproxy_rs.Base.Text.{codes}
use nsproxy_rs.DnsPacket.{to_be16, to_be32}
use nsproxy_rs.Std.Display.{IpAddr, v4, v6}
use nsproxy_rs.Proxy.{ProxyTarget, domain, ip}
use nsproxy_rs.Proxy.Stream
use nsproxy_rs.Proxy.Stream.{
  TcpStream, Failure, connect_failed, bad_version, auth_required, no_acceptable_method,
  unknown_method, missing_credentials, username_too_long, password_too_long, auth_failed,
  hostname_too_long, refused, unknown_atyp, Io, ◌>>=◌, ◌>>◌, return, fail, fail_if, write_all,
  read_exact, ProxyStream,
}

-- The byte at an index of an array that `read_exact` has filled.
abbrev pub byte : Bytes → ℕ → ℕ
byte bytes i = elim (get_elem? bytes i) [ some b ↦ b | none ↦ 0 ]

abbrev pub method_no_auth : ℕ
method_no_auth = 0

abbrev pub method_user_pass : ℕ
method_user_pass = 2

-- The greeting: the version, the number of methods, and the methods.
abbrev pub greeting : Bool → Bytes
greeting has_auth =
    if has_auth then 5 ∷ 2 ∷ method_no_auth ∷ method_user_pass ∷ [] else 5 ∷ 1 ∷ method_no_auth ∷ []

-- The `match` on the method that the server selects.
abbrev pub check_method : Bool → ℕ → Io ℕ
check_method has_auth method =
    if method == method_no_auth
    then return method
    else if method == method_user_pass
    then (if has_auth then return method else fail auth_required)
    else if method == 0xFF
    then fail no_acceptable_method
    else fail unknown_method

unfoldable pub negotiate_method : Bool → Io ℕ
negotiate_method has_auth = do
  write_all (greeting has_auth)
  resp ← read_exact 2
  fail_if (not (byte resp 0 == 5)) bad_version
  check_method has_auth (byte resp 1)

-- The request of RFC 1929.
abbrev pub auth_request : Bytes → Bytes → Bytes
auth_request user pass = 1 ∷ length user % 256 ∷ (user ++ length pass % 256 ∷ pass)

unfoldable pub authenticate : Bytes → Bytes → Io (Unit {0})
authenticate user pass = do
  fail_if (ltb 255 (length user)) username_too_long
  fail_if (ltb 255 (length pass)) password_too_long
  write_all (auth_request user pass)
  resp ← read_exact 2
  fail_if (not (byte resp 1 == 0)) auth_failed
  return tt

-- `Ipv6Addr::octets`.
abbrev pub octets : List ℕ → Bytes
octets [] = []
octets (segment ∷ segments) = to_be16 segment ++ octets segments

-- The CONNECT request.
abbrev pub connect_request : ProxyTarget → Bytes
connect_request (ip (v4 addr) port) = 5 ∷ 1 ∷ 0 ∷ 1 ∷ (to_be32 addr ++ to_be16 port)
connect_request (ip (v6 segments) port) = 5 ∷ 1 ∷ 0 ∷ 4 ∷ (octets segments ++ to_be16 port)
connect_request (domain host port) = 5 ∷ 1 ∷ 0 ∷ 3 ∷ length host % 256 ∷ (host ++ to_be16 port)

-- The test that builds the request: a host name of more than 255 bytes is refused.
abbrev pub check_target : ProxyTarget → Io (Unit {0})
check_target (ip addr port) = return tt
check_target (domain host port) = fail_if (ltb 255 (length host)) hostname_too_long

-- The rest of the reply: the bound address and port.
unfoldable pub skip_addr : ℕ → Io (Unit {0})
skip_addr atyp =
    if atyp == 1
    then (do _ ← read_exact 6; return tt)
    else if atyp == 4
    then (do _ ← read_exact 18; return tt)
    else if atyp == 3
    then (do len_buf ← read_exact 1; _ ← read_exact (byte len_buf 0 + 2); return tt)
    else fail unknown_atyp

unfoldable pub send_connect_request : ProxyTarget → Io (Unit {0})
send_connect_request target = do
  check_target target
  write_all (connect_request target)
  hdr ← read_exact 4
  fail_if (not (byte hdr 0 == 5)) bad_version
  fail_if (not (byte hdr 1 == 0)) (refused (byte hdr 1))
  skip_addr (byte hdr 3)

abbrev pub has_credentials : Option (Bytes × Bytes) → Bool
has_credentials none = false
has_credentials (some a) = true

abbrev pub authenticate_with : Option (Bytes × Bytes) → Io (Unit {0})
authenticate_with none = fail missing_credentials
authenticate_with (some (user, pass)) = authenticate user pass

-- `connect`, on the connection to the server; the tunnel has no prefetched bytes.
unfoldable pub connect : Option (Bytes × Bytes) → ProxyTarget → Io ProxyStream
connect auth target = do
  method ← negotiate_method (has_credentials auth)
  if method == method_user_pass then authenticate_with auth else return tt
  send_connect_request target
  λ s. (ok (Stream.new s []), s)

unfoldable pub socks5_reply_message : ℕ → Bytes
socks5_reply_message rep =
    if rep == 1
    then codes "general SOCKS server failure"
    else if rep == 2
    then codes "connection not allowed by ruleset"
    else if rep == 3
    then codes "network unreachable"
    else if rep == 4
    then codes "host unreachable"
    else if rep == 5
    then codes "connection refused"
    else if rep == 6
    then codes "TTL expired"
    else if rep == 7
    then codes "command not supported"
    else if rep == 8
    then codes "address type not supported"
    else codes "unknown error"
