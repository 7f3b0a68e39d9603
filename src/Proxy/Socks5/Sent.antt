-- ===== src/Proxy/Socks5/Sent.antt =====
-- What the client of a SOCKS5 proxy sends, whatever the proxy answers and wherever the connection ends.
use nsproxy_rs.Base.{
  ℕ, ◌+◌, ◌≡◌, refl, ap, ◌∙◌, inl, inr, Bool, not, [], ◌∷◌, ◌++◌, Option, none, some, Bytes, length,
  ltb, ◌==◌, if◌then◌else◌, arith, Bool-cases,
}
use nsproxy_rs.Proxy.{ProxyTarget, domain, ip}
use nsproxy_rs.Proxy.Stream.{
  TcpStream, bad_version, auth_required, no_acceptable_method, unknown_method, missing_credentials,
  username_too_long, password_too_long, auth_failed, hostname_too_long, refused, unknown_atyp,
  return, fail, new,
}
use nsproxy_rs.Proxy.Stream.Sends.{
  Sends, Sends-then, Sends-last, Sends-weaken, Sends-quiet, Sends-write_all, Sends-read_exact,
  Sends-fail_if, Sends-fail, Sends-return, Sends-if,
}
use nsproxy_rs.Proxy.Socks5.{
  byte, method_no_auth, method_user_pass, greeting, check_method, negotiate_method, auth_request,
  authenticate, connect_request, check_target, skip_addr, send_connect_request, has_credentials,
  authenticate_with, connect,
}

abbrev Always : {A : Type 0} → A → TcpStream → Type 0
Always a t = Unit

Sends-check_method :
    (has_auth : Bool) (method selected : ℕ) (s : TcpStream)
    → method ≡ selected
    → Sends s.sent [] (λ m _. m ≡ selected) (check_method has_auth method s)
Sends-check_method has_auth method selected s e =
    Sends-if s.sent [] (method == method_no_auth) (return method) _ s (λ _. Sends-return method s e)
      λ _.
        Sends-if s.sent [] (method == method_user_pass) _ _ s
          (λ _.
            Sends-if s.sent [] has_auth (return method) (fail auth_required) s
              (λ _. Sends-return method s e) λ _. Sends-fail [] auth_required s)
          λ _.
            Sends-if s.sent [] (method == 0xFF) (fail no_acceptable_method) (fail unknown_method) s
              (λ _. Sends-fail [] no_acceptable_method s) λ _. Sends-fail [] unknown_method s

byte-append :
    (bytes rest input : Bytes)
    → bytes ++ rest ≡ input
    → length bytes ≡ 2
    → byte bytes 1 ≡ byte input 1
byte-append (a ∷ b ∷ []) rest input h k = ap (λ l. byte l 1) h
byte-append _ rest input h k = absurd (omega arith)

-- The method that is agreed on is the one in the server's reply.
Sends-negotiate_method :
    (has_auth : Bool) (s : TcpStream)
    → Sends s.sent (greeting has_auth) (λ m _. m ≡ byte s.input 1) (negotiate_method has_auth s)
unfolding negotiate_method
Sends-negotiate_method has_auth s =
    Sends-last s.sent (greeting has_auth) _ (Sends-write_all (greeting has_auth) s) λ u t same.
      Sends-quiet t.sent [] _ (Sends-read_exact 2 t) λ resp r read.
        Sends-quiet r.sent [] _ (Sends-fail_if (not (byte resp 0 == 5)) bad_version r) λ u q kept.
          Sends-check_method has_auth (byte resp 1) (byte s.input 1) q
            (byte-append resp r.input s.input (read.0 ∙ same) read.1)

Sends-authenticate :
    (user pass : Bytes) (s : TcpStream)
    → Sends s.sent (auth_request user pass) Always (authenticate user pass s)
unfolding authenticate
Sends-authenticate user pass s =
    Sends-quiet s.sent (auth_request user pass) _
      (Sends-fail_if (ltb 255 (length user)) username_too_long s)
      λ u t _.
        Sends-quiet t.sent (auth_request user pass) _
          (Sends-fail_if (ltb 255 (length pass)) password_too_long t)
          λ u r _.
            Sends-last r.sent (auth_request user pass) _
              (Sends-write_all (auth_request user pass) r)
              λ u q _. Sends-quiet q.sent [] _ (Sends-read_exact 2 q) λ resp p _.
                Sends-quiet p.sent [] _ (Sends-fail_if (not (byte resp 1 == 0)) auth_failed p)
                  λ u o _. Sends-return tt o tt

Sends-skip_addr : (atyp : ℕ) (s : TcpStream) → Sends s.sent [] Always (skip_addr atyp s)
unfolding skip_addr
Sends-skip_addr atyp s =
    Sends-if s.sent [] (atyp == 1) _ _ s
      (λ _. Sends-quiet s.sent [] _ (Sends-read_exact 6 s) λ b t _. Sends-return tt t tt)
      λ _.
        Sends-if s.sent [] (atyp == 4) _ _ s
          (λ _. Sends-quiet s.sent [] _ (Sends-read_exact 18 s) λ b t _. Sends-return tt t tt)
          λ _.
            Sends-if s.sent [] (atyp == 3) _ _ s
              (λ _. Sends-quiet s.sent [] _ (Sends-read_exact 1 s) λ len t _.
                Sends-quiet t.sent [] _ (Sends-read_exact (byte len 0 + 2) t)
                  λ b r _. Sends-return tt r tt)
              λ _. Sends-fail [] unknown_atyp s

Sends-check_target :
    (target : ProxyTarget) (s : TcpStream) → Sends s.sent [] Always (check_target target s)
Sends-check_target (ip addr port) s = Sends-return tt s tt
Sends-check_target (domain host port) s =
    Sends-weaken s.sent [] (λ a t p. tt) (Sends-fail_if (ltb 255 (length host)) hostname_too_long s)

Sends-send_connect_request :
    (target : ProxyTarget) (s : TcpStream)
    → Sends s.sent (connect_request target) Always (send_connect_request target s)
unfolding send_connect_request
Sends-send_connect_request target s =
    Sends-quiet s.sent (connect_request target) _ (Sends-check_target target s) λ u t _.
      Sends-last t.sent (connect_request target) _ (Sends-write_all (connect_request target) t)
        λ u r _. Sends-quiet r.sent [] _ (Sends-read_exact 4 r) λ hdr q _.
          Sends-quiet q.sent [] _ (Sends-fail_if (not (byte hdr 0 == 5)) bad_version q) λ u p _.
            Sends-quiet p.sent [] _ (Sends-fail_if (not (byte hdr 1 == 0)) (refused (byte hdr 1)) p)
              λ u o _. Sends-skip_addr (byte hdr 3) o

-- The bytes of RFC 1929, where there are credentials.
abbrev pub credentials : Option (Bytes × Bytes) → Bytes
credentials none = []
credentials (some (user, pass)) = auth_request user pass

-- The messages of the client in a session in which the server selects the method.
abbrev pub script : Option (Bytes × Bytes) → ProxyTarget → ℕ → Bytes
script auth target method =
    greeting (has_credentials auth)
    ++ ((if method == method_user_pass then credentials auth else []) ++ connect_request target)

Sends-authenticate_with :
    (auth : Option (Bytes × Bytes)) (s : TcpStream)
    → Sends s.sent (credentials auth) Always (authenticate_with auth s)
Sends-authenticate_with none s = Sends-fail [] missing_credentials s
Sends-authenticate_with (some (user, pass)) s = Sends-authenticate user pass s

Sends-optional :
    (auth : Option (Bytes × Bytes)) (m method : ℕ) (s : TcpStream)
    → m ≡ method
    → Sends s.sent
        (if method == method_user_pass then credentials auth else [])
        Always
        ((if m == method_user_pass then authenticate_with auth else return tt) s)
Sends-optional auth m method s e = rw e (elim (Bool-cases (method == method_user_pass)) [
  | inl f ↦ rw f (Sends-authenticate_with auth s)
  | inr f ↦ rw f (Sends-return tt s tt)
])

-- Whatever the proxy sends and wherever the connection breaks, the client has sent a part of its
-- messages in their order: the greeting, the credentials only if the proxy selected them in its
-- reply, and the request. If the handshake succeeds it has sent them all, and the stream has no
-- prefetched bytes.
pub connect-Sends :
    (auth : Option (Bytes × Bytes)) (target : ProxyTarget) (s : TcpStream)
    → Sends s.sent
        (script auth target (byte s.input 1))
        (λ p t. p ≡ new t [])
        (connect auth target s)
unfolding connect
connect-Sends auth target s =
    let method : ℕ = byte s.input 1 in
    Sends-then s.sent (greeting (has_credentials auth)) _ _
      (Sends-negotiate_method (has_credentials auth) s)
      λ m t e.
        Sends-then t.sent (if method == method_user_pass then credentials auth else [])
          (connect_request target) _ (Sends-optional auth m method t e)
          λ u r _.
            Sends-last r.sent (connect_request target) _ (Sends-send_connect_request target r)
              λ u q _. Sends-return (new q []) q refl
