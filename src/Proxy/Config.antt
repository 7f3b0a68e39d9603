-- ===== src/Proxy/Config.antt =====
-- What `ProxyConfig::parse` accepts.
use nsproxy_rs.Base.{
  ◌≡◌, ◌≢◌, ◌⊎◌, append_assoc, refl, sym, inl, inr, false, [], ◌∷◌, ◌++◌, Option, none, some, Bytes,
  ok, ◌>>=◌, or_fail, bytes_beq, arith, >>=-eq-ok, Bool-cases, Option-cases,
}
use nsproxy_rs.Base.Text.{
  codes, contains, rsplit_once, strip_prefix, split_once-append, rsplit_once-append,
  rsplit_once_absent, rsplit_once-contains, contains_of_rsplit_once,
}
use nsproxy_rs.Proxy.{
  ProxyConfig, direct, socks5, http, unsupported_proxy, Kind, socks5_kind, http_kind, scheme,
  split_auth, check_address, is_empty, parse, display, of_kind,
}

-- The route without its credentials.
abbrev pub without_auth : ProxyConfig → ProxyConfig
without_auth direct = direct
without_auth (socks5 addr auth) = socks5 addr none
without_auth (http addr auth) = http addr none

-- The prefix that `Display` writes for a kind.
abbrev pub prefix : Kind → Bytes
prefix socks5_kind = codes "socks5://"
prefix http_kind = codes "http://"

scheme-prefix : (k : Kind) (rest : Bytes) → scheme (prefix k ++ rest) ≡ some (k, rest)
unfolding scheme strip_prefix
scheme-prefix socks5_kind rest = refl
scheme-prefix http_kind rest = refl

not_direct : (k : Kind) (rest : Bytes) → bytes_beq (prefix k ++ rest) (codes "direct") ≡ false
not_direct socks5_kind rest = refl
not_direct http_kind rest = refl

parse-prefix :
    (k : Kind) (rest : Bytes) {auth : Option (Bytes × Bytes)} {addr : Bytes}
    → split_auth rest ≡ ok (auth, addr)
    → check_address addr ≡ ok tt
    → parse (prefix k ++ rest) ≡ ok (of_kind k addr auth)
unfolding parse
parse-prefix k rest e c =
    rw (not_direct k rest, scheme-prefix k rest) (rw (e, ◌>>=◌) (rw (c, ◌>>=◌)))

is_empty-ne : (u : Bytes) → u ≢ [] → is_empty u ≡ false
is_empty-ne [] h = absurd (h refl)
is_empty-ne (b ∷ u) h = refl

split_auth-append :
    (user pass addr : Bytes)
    → user ≢ []
    → contains b':' user ≡ false
    → contains b'@' addr ≡ false
    → split_auth (user ++ b':' ∷ (pass ++ b'@' ∷ addr)) ≡ ok (some (user, pass), addr)
unfolding split_auth
split_auth-append user pass addr given no_colon no_at =
    let same : user ++ b':' ∷ (pass ++ b'@' ∷ addr) ≡ (user ++ b':' ∷ pass) ++ b'@' ∷ addr =
      sym (append_assoc user (b':' ∷ pass) (b'@' ∷ addr)) in
    ground (
      arith,
      same,
      rsplit_once-append b'@' (user ++ b':' ∷ pass) addr no_at,
      split_once-append b':' user pass no_colon,
      is_empty-ne user given,
    )

-- A user and a password in front of the last `@` are recovered, whatever bytes the password holds.
pub parse-auth :
    (k : Kind) (user pass addr : Bytes)
    → user ≢ []
    → contains b':' user ≡ false
    → contains b'@' addr ≡ false
    → check_address addr ≡ ok tt
    → parse (prefix k ++ (user ++ b':' ∷ (pass ++ b'@' ∷ addr)))
      ≡ ok (of_kind k addr (some (user, pass)))
parse-auth k user pass addr given no_colon no_at c =
    parse-prefix k _ (split_auth-append user pass addr given no_colon no_at) c

split_auth-no_at :
    (rest : Bytes) {auth : Option (Bytes × Bytes)} {addr : Bytes}
    → split_auth rest ≡ ok (auth, addr)
    → contains b'@' addr ≡ false
unfolding split_auth
split_auth-no_at rest {auth} {addr} h = elim (Option-cases (rsplit_once b'@' rest)) [
  | inl e ↦ ground (arith, contains_of_rsplit_once b'@' rest)
  | inr ((x, y), e) ↦ ground (arith, rsplit_once-contains b'@' rest x y e)
]

-- A parsed route is direct, or has a checked address with no `@`.
parse-cases :
    (value : Bytes) (c : ProxyConfig)
    → parse value ≡ ok c
    → (c ≡ direct)
      ⊎ ((k : Kind) × (addr : Bytes) × (auth : Option (Bytes × Bytes)) × (c ≡ of_kind k addr auth)
          × (check_address addr ≡ ok tt)
          × (contains b'@' addr ≡ false))
unfolding parse
parse-cases value c h = elim (Bool-cases (bytes_beq value (codes "direct"))) [
  | inl e ↦ inl (ground arith)
  | inr e ↦
      let ((k, rest), _, h1) = >>=-eq-ok (or_fail (scheme value) unsupported_proxy) _ (rw e at h) in
      let ((auth, addr), e2, h2) = >>=-eq-ok (split_auth rest) _ h1 in
      let (_, e3, h3) = >>=-eq-ok (check_address addr) _ h2 in
      inr (k, addr, auth, sym (ground arith), e3, split_auth-no_at rest e2)
]

split_auth_plain : (addr : Bytes) → contains b'@' addr ≡ false → split_auth addr ≡ ok (none, addr)
unfolding split_auth
split_auth_plain addr h = ground (arith, rsplit_once_absent b'@' addr h)

display-of_kind :
    (k : Kind) (addr : Bytes) (auth : Option (Bytes × Bytes))
    → (display (of_kind k addr auth) ≡ prefix k ++ addr)
      × (without_auth (of_kind k addr auth) ≡ of_kind k addr none)
unfolding display
display-of_kind socks5_kind addr auth = (refl, refl)
display-of_kind http_kind addr auth = (refl, refl)

parse_direct : parse (display direct) ≡ ok direct
unfolding parse display
parse_direct = refl

-- What `Display` shows of a parsed route parses again, to the same route without its credentials.
pub parse-display :
    (value : Bytes) (c : ProxyConfig) → parse value ≡ ok c → parse (display c) ≡ ok (without_auth c)
parse-display value c h = elim (parse-cases value c h) [
  | inl e ↦ rw e parse_direct
  | inr (k, addr, auth, e, checked, no_at) ↦
      rw (e, (display-of_kind k addr auth).0, (display-of_kind k addr auth).1)
        (parse-prefix k addr (split_auth_plain addr no_at) checked)
]
