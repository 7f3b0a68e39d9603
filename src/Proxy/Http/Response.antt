-- ===== src/Proxy/Http/Response.antt =====
-- The handshake on the responses of a proxy, however they arrive.
use nsproxy_rs.Base.{
  ℕ, zero, suc, ◌+◌, ◌-◌, ◌≤◌, ◌<◌, ◌≡◌, ◌≢◌, refl, ap, ◌∙◌, inl, inr, true, false, List, [], ◌∷◌,
  ◌++◌, Option, Bytes, ret, length, ok, err, leb, ◌==◌, arith, All, Bool-cases, length-append,
}
use nsproxy_rs.Base.Text.{contains, is_utf8}
use nsproxy_rs.Proxy.{ProxyTarget, is_empty}
use nsproxy_rs.Proxy.Stream.{TcpStream, refused, ProxyStream, new, write_all}
use nsproxy_rs.Proxy.Stream.Reads.{remaining}
use nsproxy_rs.Proxy.Http.{
  BufReader, crlf, request, trim_end, parse_status_code, split_line, pending, drain_headers,
  read_response, after_write, do_connect,
}
use nsproxy_rs.Proxy.Http.Lines.{read_line_lem}

length-split_line : (bs : Bytes) → length (split_line bs).0 + length (split_line bs).1 ≡ length bs
unfolding split_line
length-split_line [] = omega arith
length-split_line (b ∷ bs) = elim (Bool-cases (b == 10)) [
  | inl e ↦ rw e (omega arith)
  | inr e ↦ rw e (omega (arith, length-split_line bs))
]

-- A line of text, without its end.
pub record IsLine (l : Bytes) : Type 0 where
  pub no_feed : contains 10 l ≡ false
  pub text : is_utf8 (l ++ crlf) ≡ true

-- A header line: it is not blank.
pub record IsHeader (l : Bytes) : Type 0 where
  pub line : IsLine l
  pub not_blank : is_empty (trim_end (l ++ crlf)) ≡ false

abbrev pub header_bytes : List Bytes → Bytes → Bytes
header_bytes [] tail = 13 ∷ 10 ∷ tail
header_bytes (l ∷ ls) tail = (l ++ crlf) ++ header_bytes ls tail

split_line-crlf :
    (l rest : Bytes) → contains 10 l ≡ false → split_line ((l ++ crlf) ++ rest) ≡ (l ++ crlf, rest)
unfolding split_line contains
split_line-crlf [] rest h = refl
split_line-crlf (b ∷ l) rest h =
    let other : (b == 10) ≡ false = ground arith in
    rw (other, split_line-crlf l rest (ground arith)) refl

blank_text : is_utf8 crlf ≡ true
unfolding is_utf8
blank_text = refl

-- Behind the header lines and the blank line the stream has the tunnel's bytes.
drain_headers-header_bytes :
    (ls : List Bytes) (tail : Bytes) (fuel : ℕ) (r : BufReader)
    → All IsHeader ls
    → pending r ≡ header_bytes ls tail
    → length ls < fuel
    → (p : ProxyStream) × (drain_headers fuel r ≡ ret (ok p))
      × (remaining p ≡ tail)
      × (p.inner.sent ≡ r.inner.sent)
unfolding drain_headers split_line trim_end
drain_headers-header_bytes ls tail zero r a e h = absurd (omega arith)
drain_headers-header_bytes [] tail (suc fuel) r a e h =
    let (s, run, left, sent) = read_line_lem r in
    (new s.inner s.buffer, rw (run, e, blank_text) refl, left ∙ rw e refl, sent)
drain_headers-header_bytes (l ∷ ls) tail (suc fuel) r a e h =
    let (s, run, left, sent) = read_line_lem r in
    let first : split_line (pending r) ≡ (l ++ crlf, header_bytes ls tail) =
      ap split_line e ∙ split_line-crlf l (header_bytes ls tail) a.0.line.no_feed in
    let (p, more, rest, kept) =
      drain_headers-header_bytes ls tail fuel s a.1 (left ∙ ap (λ q. q.1) first) (omega arith) in
    (p, rw (run, first, a.0.line.text, a.0.not_blank, more) refl, rest, kept ∙ sent)

header_bytes-length : (ls : List Bytes) (tail : Bytes) → length ls ≤ length (header_bytes ls tail)
header_bytes-length [] tail = omega arith
header_bytes-length (l ∷ ls) tail = omega (
  arith,
  header_bytes-length ls tail,
  length-append (l ++ crlf) (header_bytes ls tail),
  length-append l crlf,
)

module _ (auth : Option (Bytes × Bytes)) (target : ProxyTarget) (arrivals : List ℕ)
    (s : TcpStream) where
  connected : BufReader
  connected = record {
    buffer = [];
    inner = record s {
      sent = s.sent ++ request auth target;
      accepts = s.accepts - length (request auth target);
    };
    arrivals = arrivals;
  }

  request-written :
      length (request auth target) ≤ s.accepts
      → write_all (request auth target) s ≡ (ok tt, connected.inner)
  unfolding write_all connected
  request-written h =
      let fits : leb (length (request auth target)) s.accepts ≡ true = ground arith in
      rw (write_all, fits) refl

  do_connect-written :
      length (request auth target) ≤ s.accepts
      → do_connect auth target arrivals s ≡ read_response connected
  unfolding do_connect connected
  do_connect-written h = ap (after_write arrivals) (request-written h)

  -- If the proxy answers with status 200 and any header lines, the handshake succeeds however the
  -- answer arrives: the request has been sent, and the stream gives exactly the bytes that follow the
  -- blank line, those that came with the answer first.
  pub do_connect-header_bytes :
      (status : Bytes) (headers : List Bytes) (tail : Bytes)
      → length (request auth target) ≤ s.accepts
      → s.input ≡ (status ++ crlf) ++ header_bytes headers tail
      → IsLine status
      → parse_status_code (trim_end (status ++ crlf)) ≡ ok 200
      → All IsHeader headers
      → (p : ProxyStream) × (do_connect auth target arrivals s ≡ ret (ok p))
        × (remaining p ≡ tail)
        × (p.inner.sent ≡ s.sent ++ request auth target)
  unfolding read_response connected
  do_connect-header_bytes status headers tail h e l c a =
      let (r, run, left, sent) = read_line_lem connected in
      let first : split_line s.input ≡ (status ++ crlf, header_bytes headers tail) =
        ap split_line e ∙ split_line-crlf status (header_bytes headers tail) l.no_feed in
      let rest : pending r ≡ header_bytes headers tail = left ∙ ap (λ q. q.1) first in
      let enough : length headers < suc (length (pending r)) =
        omega (arith, ap length rest, header_bytes-length headers tail) in
      let (p, drained, behind, kept) =
        drain_headers-header_bytes headers tail (suc (length (pending r))) r a rest enough in
      (p, do_connect-written h ∙ rw (run, first, l.text, c, drained) refl, behind, kept ∙ sent)

  -- If the proxy answers with another status, the handshake fails with it.
  pub do_connect-refused :
      (status rest : Bytes) (code : ℕ)
      → length (request auth target) ≤ s.accepts
      → s.input ≡ (status ++ crlf) ++ rest
      → IsLine status
      → parse_status_code (trim_end (status ++ crlf)) ≡ ok code
      → code ≢ 200
      → do_connect auth target arrivals s ≡ ret (err (refused code))
  unfolding read_response connected
  do_connect-refused status rest code h e l c n =
      let (r, run, left, sent) = read_line_lem connected in
      let first : split_line s.input ≡ (status ++ crlf, rest) =
        ap split_line e ∙ split_line-crlf status rest l.no_feed in
      let other : (code == 200) ≡ false = ground arith in
      do_connect-written h ∙ rw (run, first, l.text, c, other) refl
