-- ===== src/Proxy/Stream.antt =====
-- A TCP connection of Tokio as the proxy handshakes use it, and src/proxy/mod.rs: `ProxyStream`, the
-- stream that first gives the bytes prefetched during the handshake. `TcpStream` is not part of the
-- repository: a connection is the bytes that the peer will send, the bytes sent so far, and how many
-- more the connection accepts before a write fails.
pub mod Reads
pub mod Sends
use nsproxy_rs.Base.{
  ℕ, ◌+◌, ◌-◌, Bool, true, false, List, [], ◌∷◌, ◌++◌, Option, none, some, Bytes, Result, ok, err,
  length, take, drop, ltb, leb, min, if◌then◌else◌,
}

pub record TcpStream : Type 0 where
  pub input : Bytes
  pub sent : Bytes
  pub accepts : ℕ

pub data Failure : Type 0 where
  connect_failed write_failed read_failed bad_version auth_required : Failure
  no_acceptable_method unknown_method missing_credentials : Failure
  username_too_long password_too_long auth_failed hostname_too_long : Failure
  refused : ℕ → Failure
  unknown_atyp not_http malformed_status invalid_status timed_out : Failure

-- Code that uses one connection and may fail; what was sent and read before a failure stays.
abbrev pub Io : Type 0 → Type 0
Io A = TcpStream → Result Failure A × TcpStream

abbrev pub then_io :
    {A B : Type 0} → Result Failure A × TcpStream → (A → Io B) → Result Failure B × TcpStream
then_io (ok a, s) f = f a s
then_io (err e, s) f = (err e, s)

infixl 5 ◌>>=◌ ◌>>◌
abbrev pub ◌>>=◌ : {A B : Type 0} → Io A → (A → Io B) → Io B
(m >>= f) s = then_io (m s) f

abbrev pub ◌>>◌ : {B : Type 0} → Io (Unit {0}) → Io B → Io B
m >> k = m >>= λ _. k

abbrev pub return : {A : Type 0} → A → Io A
return a s = (ok a, s)

abbrev pub fail : {A : Type 0} → Failure → Io A
fail e s = (err e, s)

-- `if b { bail!(…) }`
abbrev pub fail_if : Bool → Failure → Io (Unit {0})
fail_if true e = fail e
fail_if false e = return tt

unfoldable pub write_all : Bytes → Io (Unit {0})
write_all bytes s =
    if leb (length bytes) s.accepts
    then (ok tt, record s { sent = s.sent ++ bytes; accepts = s.accepts - length bytes })
    else (err write_failed, record s { sent = s.sent ++ take s.accepts bytes; accepts = 0 })

-- At the end of the input `read_exact` fails, with the input consumed.
unfoldable pub read_exact : ℕ → Io Bytes
read_exact n s =
    if leb n (length s.input)
    then (ok (take n s.input), record s { input = drop n s.input })
    else (err read_failed, record s { input = [] })

-- The connection behind the handshake, and the `Cursor` over the prefetched bytes.
pub record ProxyStream : Type 0 where
  pub inner : TcpStream
  pub buffered : Bytes
  pub position : ℕ

abbrev pub new : TcpStream → Bytes → ProxyStream
new inner buffered = record { inner = inner; buffered = buffered; position = 0 }

unfoldable pub has_buffered_data : ProxyStream → Bool
has_buffered_data s = ltb s.position (length s.buffered)

-- `Cursor::read` into a buffer of `n` bytes: the bytes read, and the cursor behind them.
abbrev read_buffered : ℕ → ProxyStream → Bytes × ProxyStream
read_buffered n s =
    let bytes = take n (drop s.position s.buffered) in
    (bytes, record s { position = s.position + length bytes })

-- A read from the connection that finds `ready` bytes there, up to the size of the buffer. How many
-- are ready is up to the network; with none ready, the read would block or finds the end.
abbrev read_inner : ℕ → ℕ → ProxyStream → Bytes × ProxyStream
read_inner n ready s =
    let k = min n ready in
    (take k s.inner.input, record s { inner = record s.inner { input = drop k s.inner.input } })

-- `try_read`, and `AsyncRead::poll_read`.
unfoldable pub try_read : ℕ → ℕ → ProxyStream → Bytes × ProxyStream
try_read n ready s = if has_buffered_data s then read_buffered n s else read_inner n ready s

-- `poll_read_ready`, where the connection has `ready` bytes.
unfoldable pub poll_read_ready : ℕ → ProxyStream → Bool
poll_read_ready ready s = if has_buffered_data s then true else ltb 0 ready
