-- ===== src/Proxy.antt =====
-- src/proxy/mod.rs: outbound routes, their parser and display, and the targets of connections. The
-- connectors are in Proxy.Socks5 and Proxy.Http, the stream with its prefetched bytes in
-- Proxy.Stream. Text is its UTF-8 bytes.
pub mod Config
pub mod Connect
pub mod Stream
pub mod Socks5
pub mod Http
pub mod Wire
use nsproxy_rs.Base.{
  ◌≡◌, refl, ℕ, ◌+◌, Bool, true, false, ◌&&◌, ◌||◌, not, List, [], ◌∷◌, ◌++◌, Option, none, some,
  Bytes, Result, ok, err, ◌>>=◌, ◌>>◌, guard, or_fail, leb, ◌==◌, if◌then◌else◌, bytes_beq,
}
use nsproxy_rs.Base.Text.{codes, contains, split_once, rsplit_once, strip_prefix}
use nsproxy_rs.Std.Number.{parse_uint, decimal, u16_max}
use nsproxy_rs.Std.Address.{is_socket_addr}
use nsproxy_rs.Std.Display.{IpAddr, display_ip}

pub data ProxyConfig : Type 0 where
  direct : ProxyConfig
  socks5 : Bytes → Option (Bytes × Bytes) → ProxyConfig
  http : Bytes → Option (Bytes × Bytes) → ProxyConfig

pub data Error : Type 0 where
  unsupported_proxy empty_username invalid_address invalid_hostname invalid_port : Error

pub data Kind : Type 0 where
  socks5_kind http_kind : Kind

-- The scheme of a proxy URL and what follows it.
unfoldable pub scheme : Bytes → Option (Kind × Bytes)
scheme value = elim (strip_prefix (codes "socks5://") value) [
  | some rest ↦ some (socks5_kind, rest)
  | none ↦ elim (strip_prefix (codes "socks://") value) [
    | some rest ↦ some (socks5_kind, rest)
    | none ↦ elim (strip_prefix (codes "http://") value) [
      | some rest ↦ some (http_kind, rest)
      | none ↦ none
    ]
  ]
]

-- `splitn(2, ':')` of the credentials, with an empty second part if there is no colon.
abbrev split_user : Bytes → Bytes × Bytes
split_user auth_str = elim (split_once b':' auth_str) [ none ↦ (auth_str, []) | some parts ↦ parts ]

abbrev pub is_empty : Bytes → Bool
is_empty [] = true
is_empty (b ∷ bs) = false

pub is_empty-eq-true : (bs : Bytes) → is_empty bs ≡ true → bs ≡ []
is_empty-eq-true [] h = refl
is_empty-eq-true (b ∷ bs) h = cc

-- The credentials stand before the last `@`.
unfoldable pub split_auth : Bytes → Result Error (Option (Bytes × Bytes) × Bytes)
split_auth rest = elim (rsplit_once b'@' rest) [
  | none ↦ ok (none, rest)
  | some (auth_str, host_port) ↦
      let (user, pass) = split_user auth_str in
      if is_empty user then err empty_username else ok (some (user, pass), host_port)
]

-- `char::is_whitespace` of the character that the bytes begin with.
whitespace_at : Bytes → Bool
whitespace_at [] = false
whitespace_at (a ∷ []) = leb 9 a && leb a 13 || a == 32
whitespace_at (a ∷ b ∷ []) = leb 9 a && leb a 13 || a == 32 || a == 0xC2 && (b == 0x85 || b == 0xA0)
whitespace_at (a ∷ b ∷ c ∷ _) =
    leb 9 a && leb a 13
    || a == 32
    || a == 0xC2 && (b == 0x85 || b == 0xA0)
    || a == 0xE1 && b == 0x9A && c == 0x80
    || a == 0xE2 && b == 0x80 && (leb 0x80 c && leb c 0x8A || c == 0xA8 || c == 0xA9 || c == 0xAF)
    || a == 0xE2 && b == 0x81 && c == 0x9F
    || a == 0xE3 && b == 0x80 && c == 0x80

unfoldable pub has_whitespace : Bytes → Bool
unfolding whitespace_at
has_whitespace [] = false
has_whitespace (b ∷ bs) = whitespace_at (b ∷ bs) || has_whitespace bs

unfoldable pub is_bad_host : Bytes → Bool
is_bad_host host =
    is_empty host
    || (contains b':' host
        || contains b'/' host
        || contains b'?' host
        || contains b'#' host
        || contains b'[' host
        || contains b']' host)
    || has_whitespace host

-- The block that rejects what is neither a socket address nor `host:port`.
unfoldable pub check_address : Bytes → Result Error (Unit {0})
check_address host_port = if is_socket_addr host_port then ok tt else do
  (host, port) ← or_fail (rsplit_once b':' host_port) invalid_address
  guard (not (is_bad_host host)) invalid_hostname
  _ ← or_fail (parse_uint u16_max port) invalid_port
  ok tt

abbrev pub of_kind : Kind → Bytes → Option (Bytes × Bytes) → ProxyConfig
of_kind socks5_kind addr auth = socks5 addr auth
of_kind http_kind addr auth = http addr auth

unfoldable pub parse : Bytes → Result Error ProxyConfig
parse value = if bytes_beq value (codes "direct") then ok direct else do
  (kind, rest) ← or_fail (scheme value) unsupported_proxy
  (auth, host_port) ← split_auth rest
  check_address host_port
  ok (of_kind kind host_port auth)

-- `Display` of a route.
unfoldable pub display : ProxyConfig → Bytes
display direct = codes "direct"
display (socks5 addr auth) = codes "socks5://" ++ addr
display (http addr auth) = codes "http://" ++ addr

pub data ProxyTarget : Type 0 where
  domain : Bytes → ℕ → ProxyTarget
  ip : IpAddr → ℕ → ProxyTarget

-- `Display` of a target.
unfoldable pub display_target : ProxyTarget → Bytes
unfolding display_ip decimal
display_target (domain host port) = host ++ b':' ∷ decimal port
display_target (ip addr port) = display_ip addr ++ b':' ∷ decimal port
