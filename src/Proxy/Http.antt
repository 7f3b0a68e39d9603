-- ===== src/Proxy/Http.antt =====
-- src/proxy/http.rs: the HTTP CONNECT handshake, over Tokio's `BufReader`, and its base64 encoder.
-- `BufReader` is not part of the repository: the model keeps its buffer of 8192 bytes and fills it,
-- when it is empty, with what has arrived. How many bytes have arrived is up to the network: a list
-- of sizes, after which everything that fits arrives at once.
pub mod Base64
pub mod Lines
pub mod Response
use nsproxy_rs.Base.{
  ℕ, zero, suc, ◌+◌, ◌*◌, ◌/◌, ◌%◌, ◌^◌, min, max, Bool, true, false, ◌&&◌, ◌||◌, not, List, [],
  ◌∷◌, ◌++◌, Option, none, some, Bytes, Result, ok, err, Exec, ret, out_of_fuel, then_exec, length,
  take, drop, get_elem?, ltb, ◌==◌, if◌then◌else◌,
}
use nsproxy_rs.Base.Text.{codes, contains, is_utf8, split_once, strip_prefix}
use nsproxy_rs.Std.Number.{parse_uint, u16_max}
use nsproxy_rs.Proxy.{ProxyTarget, display_target, is_empty}
use nsproxy_rs.Proxy.Stream.{
  TcpStream, Failure, read_failed, not_http, malformed_status, invalid_status, refused, ProxyStream,
  new, write_all,
}

abbrev pub b64_alphabet : Bytes
b64_alphabet = codes "ABCDEFGHIJKLMNOPQRSTUVWXYZabcdefghijklmnopqrstuvwxyz0123456789+/"

-- `B64_ALPHABET[i]`, for an index that six bits hold.
unfoldable pub symbol : ℕ → ℕ
symbol i = elim (get_elem? b64_alphabet i) [ some b ↦ b | none ↦ 0 ]

-- `base64_encode`, by chunks of three bytes; the last one may be shorter.
unfoldable pub base64_encode : Bytes → Bytes
base64_encode [] = []
base64_encode (b0 ∷ []) =
    let combined = b0 * 2 ^ 16 in
    symbol (combined / 2 ^ 18 % 64) ∷ symbol (combined / 2 ^ 12 % 64) ∷ b'=' ∷ b'=' ∷ []
base64_encode (b0 ∷ b1 ∷ []) =
    let combined = b0 * 2 ^ 16 + b1 * 2 ^ 8 in
    symbol (combined / 2 ^ 18 % 64)
    ∷ symbol (combined / 2 ^ 12 % 64)
    ∷ symbol (combined / 2 ^ 6 % 64)
    ∷ b'='
    ∷ []
base64_encode (b0 ∷ b1 ∷ b2 ∷ bs) =
    let combined = b0 * 2 ^ 16 + b1 * 2 ^ 8 + b2 in
    symbol (combined / 2 ^ 18 % 64)
    ∷ symbol (combined / 2 ^ 12 % 64)
    ∷ symbol (combined / 2 ^ 6 % 64)
    ∷ symbol (combined % 64)
    ∷ base64_encode bs

abbrev pub crlf : Bytes
crlf = 13 ∷ 10 ∷ []

-- The header line for the credentials.
abbrev pub authorization : Option (Bytes × Bytes) → Bytes
authorization none = []
authorization (some (user, pass)) =
    codes "Proxy-Authorization: Basic " ++ base64_encode (user ++ b':' ∷ pass) ++ crlf

unfoldable pub request : Option (Bytes × Bytes) → ProxyTarget → Bytes
request auth target =
    codes "CONNECT "
    ++ display_target target
    ++ codes " HTTP/1.1"
    ++ crlf
    ++ codes "Host: "
    ++ display_target target
    ++ crlf
    ++ authorization auth
    ++ crlf

-- `trim_end_matches(['\r', '\n'])`.
unfoldable pub trim_end : Bytes → Bytes
trim_end [] = []
trim_end (b ∷ bs) =
    let rest = trim_end bs in if is_empty rest && (b == 13 || b == 10) then [] else b ∷ rest

abbrev starts_http : Bytes → Bool
starts_http version = elim (strip_prefix (codes "HTTP/") version) [ some _ ↦ true | none ↦ false ]

-- The parts of `splitn(3, ' ')` that are used: the first, and the second if there is one.
abbrev version_code : Bytes → Bytes × Option Bytes
version_code line = elim (split_once b' ' line) [
  | none ↦ (line, none)
  | some (version, rest) ↦ elim (split_once b' ' rest) [
    | none ↦ (version, some rest)
    | some (code, reason) ↦ (version, some code)
  ]
]

abbrev parse_code : Option Bytes → Result Failure ℕ
parse_code none = err malformed_status
parse_code (some code) = elim (parse_uint u16_max code) [
  | none ↦ err invalid_status
  | some n ↦ ok n
]

unfoldable pub parse_status_code : Bytes → Result Failure ℕ
parse_status_code line =
    let parts = version_code line in
    if starts_http parts.0 then parse_code parts.1 else err not_http

pub record BufReader : Type 0 where
  pub buffer : Bytes
  pub inner : TcpStream
  pub arrivals : List ℕ

abbrev pub capacity : ℕ
capacity = 8192

-- The size of the next read: at least one byte, unless the input has ended.
abbrev next_size : List ℕ → ℕ
next_size [] = capacity
next_size (n ∷ ns) = max 1 (min n capacity)

-- `fill_buf`: an empty buffer is filled from the connection.
unfoldable pub fill_buf : BufReader → BufReader
fill_buf r = elim r.buffer [
  | b ∷ bs ↦ r
  | [] ↦
      let n = next_size r.arrivals in
      record {
        buffer = take n r.inner.input;
        inner = record r.inner { input = drop n r.inner.input };
        arrivals = drop 1 r.arrivals;
      }
]

-- The bytes up to the first line feed, which is included, and those behind it.
unfoldable pub split_line : Bytes → Bytes × Bytes
split_line [] = ([], [])
split_line (b ∷ bs) =
    let (line, rest) = split_line bs in if b == 10 then (b ∷ [], bs) else (b ∷ line, rest)

-- The loop of `read_line`, with the bytes read so far. Every round takes a byte or ends.
unfoldable pub read_until : ℕ → BufReader → Bytes → Exec (Bytes × BufReader)
read_until zero r line = out_of_fuel
read_until (suc fuel) r line =
    let filled = fill_buf r in
    let more = read_until fuel (record filled { buffer = [] }) (line ++ filled.buffer) in
    if is_empty filled.buffer
    then ret (line, filled)
    else if contains 10 filled.buffer
    then ret (
      line ++ (split_line filled.buffer).0,
      record filled { buffer = (split_line filled.buffer).1 },
    )
    else more

-- What a reader of the buffer has still to see.
abbrev pub pending : BufReader → Bytes
pending r = r.buffer ++ r.inner.input

unfoldable pub read_line : BufReader → Exec (Bytes × BufReader)
read_line r = read_until (suc (suc (length (pending r)))) r []

-- The loop over the header lines. A line that is not UTF-8 is an error of `read_line`.
unfoldable pub drain_headers : ℕ → BufReader → Exec (Result Failure ProxyStream)
drain_headers zero r = out_of_fuel
drain_headers (suc fuel) r = then_exec (read_line r) λ (line, r1).
    let more = drain_headers fuel r1 in
    if not (is_utf8 line)
    then ret (err read_failed)
    else if is_empty (trim_end line)
    then ret (ok (new r1.inner r1.buffer))
    else more

-- `do_connect` behind the request.
unfoldable pub read_response : BufReader → Exec (Result Failure ProxyStream)
read_response r = then_exec (read_line r) λ (line, r1).
    if not (is_utf8 line) then ret (err read_failed) else elim (parse_status_code (trim_end line)) [
      | err e ↦ ret (err e)
      | ok code ↦
          if code == 200
          then drain_headers (suc (length (pending r1))) r1
          else ret (err (refused code))
    ]

-- What follows the write of the request.
abbrev pub after_write :
    List ℕ → Result Failure (Unit {0}) × TcpStream → Exec (Result Failure ProxyStream)
after_write arrivals (err e, t) = ret (err e)
after_write arrivals (ok u, t) =
    read_response (record { buffer = []; inner = t; arrivals = arrivals })

unfoldable pub do_connect :
    Option (Bytes × Bytes) → ProxyTarget → List ℕ → TcpStream → Exec (Result Failure ProxyStream)
do_connect auth target arrivals s = after_write arrivals (write_all (request auth target) s)
