-- ===== src/Proxy/Wire.antt =====
-- What a client of a proxy sends for a connection to a name, written out from RFC 1928 and RFC 1929, and
-- from RFC 9110 and RFC 7617, apart from the code.
use nsproxy_rs.Base.{
  ℕ, ◌/◌, ◌%◌, ◌≤◌, ◌≡◌, refl, [], ◌∷◌, ◌++◌, Option, none, some, Bytes, length, ◌==◌,
  if◌then◌else◌, arith,
}
use nsproxy_rs.Base.Text.{codes}
use nsproxy_rs.Std.Number.{decimal}
use nsproxy_rs.Proxy.{domain, display_target}
use nsproxy_rs.Proxy.Http.{request, base64_encode}
use nsproxy_rs.Proxy.Socks5.Sent.{script}
use nsproxy_rs.Proxy.Socks5.Steps.{FitsCredentials}

-- Version 5 and the offered methods: none, and 2 if there are credentials.
abbrev pub hello : Option (Bytes × Bytes) → Bytes
hello none = 5 ∷ 1 ∷ 0 ∷ []
hello (some login) = 5 ∷ 2 ∷ 0 ∷ 2 ∷ []

-- Each text behind its length.
abbrev pub login_message : Option (Bytes × Bytes) → Bytes
login_message none = []
login_message (some (user, pass)) = 1 ∷ length user ∷ (user ++ length pass ∷ pass)

-- CONNECT to a domain name, which stands behind its length and in front of the port.
abbrev pub name_message : Bytes → ℕ → Bytes
name_message host port = 5 ∷ 1 ∷ 0 ∷ 3 ∷ length host ∷ (host ++ port / 256 % 256 ∷ port % 256 ∷ [])

abbrev pub socks5_messages : Option (Bytes × Bytes) → ℕ → Bytes → ℕ → Bytes
socks5_messages auth method host port =
    hello auth ++ ((if method == 2 then login_message auth else []) ++ name_message host port)

-- The base64 text is that of the encoder, which has theorems of its own.
abbrev pub credentials_line : Option (Bytes × Bytes) → Bytes
credentials_line none = []
credentials_line (some (user, pass)) =
    codes "Proxy-Authorization: Basic " ++ base64_encode (user ++ b':' ∷ pass) ++ (13 ∷ 10 ∷ [])

-- "CONNECT host:port HTTP/1.1", the host again, the credentials, and a blank line.
abbrev pub http_request : Option (Bytes × Bytes) → Bytes → ℕ → Bytes
http_request auth host port =
    codes "CONNECT "
    ++ (host ++ b':' ∷ decimal port)
    ++ codes " HTTP/1.1"
    ++ (13 ∷ 10 ∷ [])
    ++ codes "Host: "
    ++ (host ++ b':' ∷ decimal port)
    ++ (13 ∷ 10 ∷ [])
    ++ credentials_line auth
    ++ (13 ∷ 10 ∷ [])

small : (n : ℕ) → n ≤ 255 → n % 256 ≡ n
small n h = omega arith

pub socks5_messages-script :
    (auth : Option (Bytes × Bytes)) (method : ℕ) (host : Bytes) (port : ℕ)
    → FitsCredentials auth
    → length host ≤ 255
    → script auth (domain host port) method ≡ socks5_messages auth method host port
socks5_messages-script none method host port c h = rw (small (length host) h) refl
socks5_messages-script (some (user, pass)) method host port c h =
    rw (small (length host) h, small (length user) c.0, small (length pass) c.1) refl

pub http_request-request :
    (auth : Option (Bytes × Bytes)) (host : Bytes) (port : ℕ)
    → request auth (domain host port) ≡ http_request auth host port
unfolding request display_target
http_request-request none host port = refl
http_request-request (some (user, pass)) host port = refl
