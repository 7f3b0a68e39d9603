-- ===== src/Tests/Handshakes.antt =====
-- Handshakes with proxies on concrete answers.
use nsproxy_rs.Base.{
  ◌≤◌, ◌≡◌, refl, List, [], ◌∷◌, ◌++◌, Option, none, some, Bytes, ok, length, All, arith,
}
use nsproxy_rs.Base.Text.{codes, is_utf8, contains, split_once, strip_prefix}
use nsproxy_rs.Std.Number.{decimal, parse_uint, parse_digits}
use nsproxy_rs.Proxy.{ProxyTarget, domain}
use nsproxy_rs.Proxy.Wire.{http_request}
use nsproxy_rs.Proxy.Stream.{TcpStream, new}
use nsproxy_rs.Proxy.Stream.Sends.{Sends}
use nsproxy_rs.Proxy.Stream.Reads.{remaining, read_all, read_all-remaining}
use nsproxy_rs.Proxy.Socks5
use nsproxy_rs.Proxy.Socks5.{byte}
use nsproxy_rs.Proxy.Socks5.Sent.{script, connect-Sends}
use nsproxy_rs.Proxy.Socks5.Steps.{bound_domain}
use nsproxy_rs.Proxy.Socks5.Session.{Reply}
use nsproxy_rs.Proxy.Http.{crlf, trim_end, base64_encode, parse_status_code}
use nsproxy_rs.Proxy.Http.Base64.{decode, decode-base64_encode}
use nsproxy_rs.Proxy.Http.Response.{IsLine, IsHeader, header_bytes}

abbrev pub auth : Option (Bytes × Bytes)
auth = some (codes "me", codes "pw")

abbrev target : ProxyTarget
target = domain (codes "a.com") 80

-- A server that asks for the password and then closes.
abbrev closing_server : TcpStream
closing_server = record { input = 5 ∷ 2 ∷ []; sent = []; accepts = 1000 }

connect-Sends_example :
    Sends []
      (script auth target (byte closing_server.input 1))
      (λ p t. p ≡ new t [])
      (Socks5.connect auth target closing_server)
connect-Sends_example = connect-Sends auth target closing_server

abbrev pub reply : Reply
reply = record {
  status_version = 1;
  reserved = 0;
  bound = bound_domain (codes "b");
  bound_port = (0, 80);
}

abbrev pub status : Bytes
status = codes "HTTP/1.1 200 OK"

abbrev pub headers : List Bytes
headers = codes "Via: x" ∷ []

abbrev pub server : TcpStream
server = record {
  input = (status ++ crlf) ++ header_bytes headers (codes "HI");
  sent = [];
  accepts = 1000;
}

pub status-IsLine : IsLine status
unfolding contains is_utf8
status-IsLine = record { no_feed = refl; text = refl }

pub headers-IsHeader : All IsHeader headers
unfolding contains is_utf8 trim_end
headers-IsHeader = (record { line = record { no_feed = refl; text = refl }; not_blank = refl }, tt)

pub status_code : parse_status_code (trim_end (status ++ crlf)) ≡ ok 200
unfolding parse_status_code trim_end split_once strip_prefix parse_uint parse_digits
status_code = refl

pub request_fits : length (http_request none (codes "a.com") 80) ≤ 1000
unfolding decimal
request_fits = omega arith

decode-base64_encode_example : decode (base64_encode (codes "me:pw")) ≡ codes "me:pw"
decode-base64_encode_example =
    decode-base64_encode (codes "me:pw")
      (omega arith, (omega arith, (omega arith, (omega arith, (omega arith, tt)))))

read_all-remaining_example :
    (read_all (new server (codes "AB")) ((1, 0) ∷ (5, 3) ∷ [])).0
      ++ remaining (read_all (new server (codes "AB")) ((1, 0) ∷ (5, 3) ∷ [])).1
    ≡ remaining (new server (codes "AB"))
read_all-remaining_example = read_all-remaining (new server (codes "AB")) ((1, 0) ∷ (5, 3) ∷ [])
