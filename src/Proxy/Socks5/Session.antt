-- ===== src/Proxy/Socks5/Session.antt =====
-- The handshake with a SOCKS5 proxy that follows RFC 1928 and RFC 1929 and accepts the request.
use nsproxy_rs.Base.{
  ℕ, ◌+◌, ◌≡◌, refl, ◌⊎◌, inl, inr, true, [], ◌∷◌, ◌++◌, Option, none, some, Bytes, ok, length,
  ◌==◌, if◌then◌else◌, arith, append_assoc, length-append,
}
use nsproxy_rs.Proxy.{ProxyTarget}
use nsproxy_rs.Proxy.Stream.{new}
use nsproxy_rs.Proxy.Socks5.{
  method_no_auth, method_user_pass, greeting, auth_request, connect_request, has_credentials,
  connect,
}
use nsproxy_rs.Proxy.Socks5.Sent.{script}
use nsproxy_rs.Proxy.Socks5.Steps.{
  at_point, Bound, bound_bytes, IsBound, FitsTarget, FitsCredentials, negotiate-session,
  authenticate-session, connect-session,
}

-- A session with a server that selects no authentication, or the user name and password.
pub record Reply : Type 0 where
  pub status_version : ℕ
  pub reserved : ℕ
  pub bound : Bound
  pub bound_port : ℕ × ℕ

abbrev pub connect_reply : Reply → Bytes
connect_reply r = 5 ∷ 0 ∷ r.reserved ∷ bound_bytes r.bound r.bound_port

abbrev pub server_bytes : ℕ → Reply → Bytes
server_bytes method r =
    5
    ∷ method
    ∷ ((if method == method_user_pass then r.status_version ∷ 0 ∷ [] else []) ++ connect_reply r)

-- The methods that a client with these credentials offers.
abbrev pub Offers : Option (Bytes × Bytes) → ℕ → Type 0
Offers auth method =
    (method ≡ method_no_auth) ⊎ ((method ≡ method_user_pass) × (has_credentials auth ≡ true))

-- With a server that follows the protocol and accepts the request the handshake succeeds, whichever
-- offered method it selects and whatever type its bound address has: the client sends its messages,
-- and reads the replies and no byte of the tunnel that follows them.
pub connect-server_bytes :
    (auth : Option (Bytes × Bytes)) (target : ProxyTarget) (method : ℕ) (r : Reply)
    (tail sent : Bytes) (left : ℕ)
    → FitsCredentials auth
    → FitsTarget target
    → Offers auth method
    → IsBound r.bound
    → connect auth target
        (at_point (server_bytes method r ++ tail) sent (length (script auth target method) + left))
      ≡ (
        ok (new (at_point tail (sent ++ script auth target method) left) []),
        at_point tail (sent ++ script auth target method) left,
      )
unfolding connect
connect-server_bytes auth target method r tail sent left c t (inl e) b =
    let first : Bytes = greeting (has_credentials auth) in
    let budget : length (first ++ connect_request target) + left
        ≡ length first + (length (connect_request target) + left) =
      omega (arith, length-append first (connect_request target)) in
    rw
      (
        e,
        budget,
        negotiate-session (has_credentials auth) 0 (connect_reply r ++ tail) sent
            (length (connect_request target) + left) (inl refl),
      )
      (rw (connect-session target r.reserved r.bound r.bound_port tail (sent ++ first) left t b)
        (rw (append_assoc sent first (connect_request target)) refl))
connect-server_bytes (some (user, pass)) target method r tail sent left c t (inr (e, f)) b =
    let first : Bytes = greeting true in
    let second : Bytes = auth_request user pass in
    let third : Bytes = connect_request target in
    let budget : length (first ++ (second ++ third)) + left
        ≡ length first + (length second + (length third + left)) =
      omega (arith, length-append first (second ++ third), length-append second third) in
    rw
      (
        e,
        budget,
        negotiate-session true 2 (r.status_version ∷ 0 ∷ (connect_reply r ++ tail)) sent
            (length second + (length third + left)) (inr (refl, refl)),
      )
      (rw
        (authenticate-session user pass r.status_version (connect_reply r ++ tail) (sent ++ first)
          (length third + left) c)
        (rw
          (connect-session target r.reserved r.bound r.bound_port tail ((sent ++ first) ++ second)
            left t b)
          (rw (append_assoc (sent ++ first) second third, append_assoc sent first (second ++ third))
            refl)))
connect-server_bytes none target method r tail sent left c t (inr (e, f)) b = cc
