-- ===== src/DnsPacket/Responses.antt =====
-- The responses that are built for a query.
use nsproxy_rs.Base.{
  ℕ, ◌+◌, ◌*◌, ◌^◌, ◌<◌, ◌≡◌, refl, List, [], ◌∷◌, ◌++◌, Bytes, length, take, drop, arith, All,
  length-append, append_assoc, take-length-append, drop-length-append,
}
use nsproxy_rs.Base.Text.{join}
use nsproxy_rs.DnsPacket.{
  be16, to_be16, to_be32, return_none, at, parse_query, build_a_response, build_empty_response,
}
use nsproxy_rs.DnsPacket.RoundTrip.{IsLabel, wire_name}
use nsproxy_rs.DnsPacket.Names.{encode_name-join}
use nsproxy_rs.DnsPacket.Queries.{Query, query_bytes, parse_query_response}

-- Neither kind of response is taken for a query.
pub parse_query-responses :
    (id qtype ip : ℕ) (domain : Bytes)
    → (parse_query (build_a_response id domain ip) ≡ return_none)
      × (parse_query (build_empty_response id domain qtype) ≡ return_none)
unfolding build_a_response build_empty_response at
parse_query-responses id qtype ip domain = (
  parse_query_response (build_a_response id domain ip) (ground arith) refl refl refl refl refl,
  parse_query_response (build_empty_response id domain qtype) (ground arith) refl refl refl refl
      refl,
)

-- `u16` and `u32` read back from a big-endian list.
abbrev pub from_be : Bytes → ℕ
from_be bytes = go 0 bytes
  where
    go : ℕ → Bytes → ℕ
    go acc [] = acc
    go acc (b ∷ bs) = go (acc * 256 + b) bs

-- The empty response to a query repeats its identifier and, with class IN, its question section.
pub empty_response-echo :
    (q : Query)
    → All IsLabel q.labels
    → q.id_hi < 256
    → q.id_lo < 256
    → q.qtype_hi < 256
    → q.qtype_lo < 256
    → let r =
        build_empty_response
          (be16 q.id_hi q.id_lo)
          (join b'.' q.labels)
          (be16 q.qtype_hi q.qtype_lo) in
      (take 2 r ≡ take 2 (query_bytes q))
      × (drop 12 r ≡ wire_name q.labels ++ q.qtype_hi ∷ q.qtype_lo ∷ 0 ∷ 1 ∷ [])
unfolding build_empty_response
empty_response-echo q h a b c d = (ground arith, rw (encode_name-join q.labels h) (ground arith))

drop-append-append :
    (xs ys zs : Bytes) (n : ℕ) → n ≡ length xs + length ys → drop n (xs ++ (ys ++ zs)) ≡ zs
drop-append-append xs ys zs n e =
    rw (e, ← length-append xs ys, ← append_assoc xs ys zs) (drop-length-append (xs ++ ys) zs)

-- The response with an address repeats the identifier; its header has the bits QR, RD and RA, no error,
-- one question, one answer and nothing else. It repeats the name, asks for type A and class IN, and ends
-- with the answer: a pointer to the name, type A, class IN, 300 seconds, and four bytes that stand for
-- the address.
pub a_response-answer :
    (ls : List Bytes) (id ip : ℕ)
    → All IsLabel ls
    → id < 2 ^ 16
    → ip < 2 ^ 32
    → let r = build_a_response id (join b'.' ls) ip in
      let answer = drop (12 + length (wire_name ls) + 4) r in
      (from_be (take 2 r) ≡ id)
      × (take 10 (drop 2 r) ≡ 0x81 ∷ 0x80 ∷ 0 ∷ 1 ∷ 0 ∷ 1 ∷ 0 ∷ 0 ∷ 0 ∷ 0 ∷ [])
      × (take (length (wire_name ls) + 4) (drop 12 r) ≡ wire_name ls ++ 0 ∷ 1 ∷ 0 ∷ 1 ∷ [])
      × (take 12 answer ≡ 0xC0 ∷ 12 ∷ 0 ∷ 1 ∷ 0 ∷ 1 ∷ 0 ∷ 0 ∷ 1 ∷ 44 ∷ 0 ∷ 4 ∷ [])
      × (length answer ≡ 16)
      × (from_be (drop 12 answer) ≡ ip)
unfolding build_a_response
a_response-answer ls id ip h a b =
    let head = to_be16 id ++ to_be16 0x8180 ++ to_be16 1 ++ to_be16 1 ++ to_be16 0 ++ to_be16 0 in
    let asked = wire_name ls ++ 0 ∷ 1 ∷ 0 ∷ 1 ∷ [] in
    let sent = 0xC0 ∷ 12 ∷ 0 ∷ 1 ∷ 0 ∷ 1 ∷ 0 ∷ 0 ∷ 1 ∷ 44 ∷ 0 ∷ 4 ∷ to_be32 ip in
    let n : length asked ≡ length (wire_name ls) + 4 =
      omega (arith, length-append (wire_name ls) (0 ∷ 1 ∷ 0 ∷ 1 ∷ [])) in
    let whole : drop (12 + length (wire_name ls) + 4) (head ++ (asked ++ sent)) ≡ sent =
      drop-append-append head asked sent _ (omega (arith, n)) in
    rw (encode_name-join ls h) (
      omega arith,
      refl,
      rw (← n) (take-length-append asked sent),
      rw whole refl,
      rw whole refl,
      rw whole (omega arith),
    )
