-- ===== src/Proxy/Socks5/Steps.antt =====
-- The steps of a handshake with a SOCKS5 proxy that follows RFC 1928 and RFC 1929.
use nsproxy_rs.Base.{
  ℕ, ◌+◌, ◌-◌, ◌≤◌, ◌<◌, ◌≡◌, refl, ◌⊎◌, inl, inr, Bool, true, false, [], ◌∷◌, ◌++◌, Option, none,
  some, Bytes, ok, length, drop, ltb, leb, arith, length-append, take-length-append,
  drop-length-append,
}
use nsproxy_rs.Proxy.{ProxyTarget, domain, ip}
use nsproxy_rs.Proxy.Stream.{TcpStream, write_all, read_exact}
use nsproxy_rs.Proxy.Socks5.{
  byte, method_no_auth, method_user_pass, greeting, check_method, negotiate_method, auth_request,
  authenticate, connect_request, check_target, skip_addr, send_connect_request,
}

-- The connection at one point of a session: what the proxy has still to send, what has been sent to
-- it, and what it still accepts.
abbrev pub at_point : Bytes → Bytes → ℕ → TcpStream
at_point input sent accepts = record { input = input; sent = sent; accepts = accepts }

read_exact-append :
    (n : ℕ) (xs rest sent : Bytes) (accepts : ℕ)
    → n ≡ length xs
    → read_exact n (at_point (xs ++ rest) sent accepts) ≡ (ok xs, at_point rest sent accepts)
unfolding read_exact
read_exact-append n xs rest sent accepts h =
    let inside : leb (length xs) (length (xs ++ rest)) ≡ true =
      ground (arith, length-append xs rest) in
    rw (h, read_exact, inside, take-length-append xs rest, drop-length-append xs rest) refl

write_all-accepted :
    (bytes input sent : Bytes) (left : ℕ)
    → write_all bytes (at_point input sent (length bytes + left))
      ≡ (ok tt, at_point input (sent ++ bytes) left)
unfolding write_all
write_all-accepted bytes input sent left =
    let fits : leb (length bytes) (length bytes + left) ≡ true = ground arith in
    let rest : length bytes + left - length bytes ≡ left = omega arith in
    rw (write_all, fits, rest) refl

-- The bound address in a reply, with its type.
pub data Bound : Type 0 where
  bound_v4 : ℕ × ℕ × ℕ × ℕ → Bound
  bound_domain : Bytes → Bound
  bound_v6 : Bytes → Bound

abbrev pub bound_bytes : Bound → ℕ × ℕ → Bytes
bound_bytes (bound_v4 (a, b, c, d)) port = 1 ∷ a ∷ b ∷ c ∷ d ∷ port.0 ∷ port.1 ∷ []
bound_bytes (bound_domain name) port = 3 ∷ length name ∷ (name ++ port.0 ∷ port.1 ∷ [])
bound_bytes (bound_v6 octets) port = 4 ∷ (octets ++ port.0 ∷ port.1 ∷ [])

abbrev pub IsBound : Bound → Type 0
IsBound (bound_v4 a) = Unit
IsBound (bound_domain name) = length name < 256
IsBound (bound_v6 octets) = length octets ≡ 16

-- The text of the target and the credentials fit the lengths of the protocol.
abbrev pub FitsTarget : ProxyTarget → Type 0
FitsTarget (domain host port) = length host ≤ 255
FitsTarget (ip addr port) = Unit

abbrev pub FitsCredentials : Option (Bytes × Bytes) → Type 0
FitsCredentials none = Unit
FitsCredentials (some (user, pass)) = (length user ≤ 255) × (length pass ≤ 255)

skip_bound :
    (b : Bound) (port : ℕ × ℕ) (tail sent : Bytes) (accepts : ℕ)
    → IsBound b
    → skip_addr
        (byte (bound_bytes b port) 0)
        (at_point (drop 1 (bound_bytes b port) ++ tail) sent accepts)
      ≡ (ok tt, at_point tail sent accepts)
unfolding skip_addr
skip_bound (bound_v4 (a, b, c, d)) port tail sent accepts h =
    rw (read_exact-append 6 (a ∷ b ∷ c ∷ d ∷ port.0 ∷ port.1 ∷ []) tail sent accepts refl) refl
skip_bound (bound_domain name) port tail sent accepts h =
    let address : Bytes = name ++ port.0 ∷ port.1 ∷ [] in
    rw (read_exact-append 1 (length name ∷ []) (address ++ tail) sent accepts refl) (
      rw
        (read_exact-append (length name + 2) address tail sent accepts
          (omega (arith, length-append name (port.0 ∷ port.1 ∷ []))))
        refl)
skip_bound (bound_v6 octets) port tail sent accepts h =
    let address : Bytes = octets ++ port.0 ∷ port.1 ∷ [] in
    rw
      (read_exact-append 18 address tail sent accepts
        (omega (arith, h, length-append octets (port.0 ∷ port.1 ∷ []))))
      refl

check_method_chosen :
    (has_auth : Bool) (method : ℕ) (s : TcpStream)
    → (method ≡ method_no_auth) ⊎ ((method ≡ method_user_pass) × (has_auth ≡ true))
    → check_method has_auth method s ≡ (ok method, s)
check_method_chosen has_auth method s (inl e) = rw e refl
check_method_chosen has_auth method s (inr (e, f)) = rw (e, f) refl

check_target_fits :
    (target : ProxyTarget) (s : TcpStream) → FitsTarget target → check_target target s ≡ (ok tt, s)
check_target_fits (ip addr port) s h = refl
check_target_fits (domain host port) s h =
    let fits : ltb 255 (length host) ≡ false = ground arith in rw fits refl

bound-head :
    (b : Bound) (port : ℕ × ℕ) (tail : Bytes)
    → bound_bytes b port ++ tail
      ≡ byte (bound_bytes b port) 0 ∷ (drop 1 (bound_bytes b port) ++ tail)
bound-head (bound_v4 (a, b, c, d)) port tail = refl
bound-head (bound_domain name) port tail = refl
bound-head (bound_v6 octets) port tail = refl

-- A step of the session: the method, a value, with the connection before and after it.
pub negotiate-session :
    (has_auth : Bool) (method : ℕ) (rest sent : Bytes) (left : ℕ)
    → (method ≡ method_no_auth) ⊎ ((method ≡ method_user_pass) × (has_auth ≡ true))
    → negotiate_method has_auth
        (at_point (5 ∷ method ∷ rest) sent (length (greeting has_auth) + left))
      ≡ (ok method, at_point rest (sent ++ greeting has_auth) left)
unfolding negotiate_method
negotiate-session has_auth method rest sent left h =
    rw (write_all-accepted (greeting has_auth) (5 ∷ method ∷ rest) sent left) (
      rw (read_exact-append 2 (5 ∷ method ∷ []) rest (sent ++ greeting has_auth) left refl)
        (check_method_chosen has_auth method (at_point rest (sent ++ greeting has_auth) left) h))

pub authenticate-session :
    (user pass : Bytes) (version : ℕ) (rest sent : Bytes) (left : ℕ)
    → FitsCredentials (some (user, pass))
    → authenticate user pass
        (at_point (version ∷ 0 ∷ rest) sent (length (auth_request user pass) + left))
      ≡ (ok tt, at_point rest (sent ++ auth_request user pass) left)
unfolding authenticate
authenticate-session user pass version rest sent left (h, k) =
    let user_fits : ltb 255 (length user) ≡ false = ground arith in
    let pass_fits : ltb 255 (length pass) ≡ false = ground arith in
    rw
      (
        user_fits,
        pass_fits,
        write_all-accepted (auth_request user pass) (version ∷ 0 ∷ rest) sent left,
      )
      (rw (read_exact-append 2 (version ∷ 0 ∷ []) rest (sent ++ auth_request user pass) left refl)
        refl)

pub connect-session :
    (target : ProxyTarget) (reserved : ℕ) (b : Bound) (port : ℕ × ℕ) (tail sent : Bytes) (left : ℕ)
    → FitsTarget target
    → IsBound b
    → send_connect_request target (
        at_point
          (5 ∷ 0 ∷ reserved ∷ (bound_bytes b port ++ tail))
          sent
          (length (connect_request target) + left))
      ≡ (ok tt, at_point tail (sent ++ connect_request target) left)
unfolding send_connect_request
connect-session target reserved b port tail sent left h k =
    let reply : Bytes = 5 ∷ 0 ∷ reserved ∷ byte (bound_bytes b port) 0 ∷ [] in
    let after : Bytes = drop 1 (bound_bytes b port) ++ tail in
    rw
      (
        bound-head b port tail,
        check_target_fits target _ h,
        write_all-accepted (connect_request target) (reply ++ after) sent left,
      )
      (rw (read_exact-append 4 reply after (sent ++ connect_request target) left refl)
        (skip_bound b port tail (sent ++ connect_request target) left k))
