-- ===== src/Tests/Names.antt =====
-- The DNS table and its packets on a query for `a.com`.
use nsproxy_rs.Base.{
  ℕ, ◌+◌, ◌++◌, ◌≡◌, ◌≢◌, refl, true, List, [], ◌∷◌, Option, some, Bytes, ret, length, take, drop,
  All, arith, bytes_eq, nat_eq, bytes_beq, bytes_beq_iff,
}
use nsproxy_rs.Base.Map.{get}
use nsproxy_rs.Base.Text.{codes, is_utf8, contains, join}
use nsproxy_rs.FakeDns.{FakeDns, new, pool_start, resolve, resolve_all, lookup, is_fake_ip}
use nsproxy_rs.FakeDns.Invariant.{new-IsValid, lookup-resolve}
use nsproxy_rs.FakeDns.Lifetime.{lookup-resolve_new}
use nsproxy_rs.DnsPacket.{return, parse_query, build_a_response}
use nsproxy_rs.DnsPacket.Safety.{parse_query_total}
use nsproxy_rs.DnsPacket.RoundTrip.{IsLabel, wire_name}
use nsproxy_rs.DnsPacket.Queries.{Query, query_bytes, IsQuery, parse_query-query_bytes}
use nsproxy_rs.DnsPacket.Responses.{from_be, a_response-answer}
use nsproxy_rs.Proxy.{domain}
use nsproxy_rs.EventLoop.Dns.{answer, target_for}
use nsproxy_rs.EventLoop.Dns.Answers.{answer-target_for}

abbrev host : Bytes
host = codes "a.com"

abbrev other : Bytes
other = codes "b.org"

host_ne_other : host ≢ other
host_ne_other = λ e. let same : bytes_beq host other ≡ true = (bytes_beq_iff host other).1 e in cc

lookup-resolve_example :
    (lookup (resolve new host).0 (resolve new host).1 ≡ some host)
    × (is_fake_ip (resolve new host).1 ≡ true)
    × (resolve (resolve new host).0 host ≡ resolve new host)
lookup-resolve_example = lookup-resolve new host new-IsValid

lookup-resolve_new_example :
    lookup (resolve_all (resolve new host).0 (other ∷ [])) (resolve new host).1 ≡ some host
unfolding get new
lookup-resolve_new_example = lookup-resolve_new new host (other ∷ []) new-IsValid refl (omega arith)

abbrev labels : List Bytes
labels = codes "a" ∷ codes "com" ∷ []

labels_are : All IsLabel labels
unfolding is_utf8 contains
labels_are = (
  record { ne_nil = omega arith; short = omega arith; text = refl; no_dot = refl },
  (record { ne_nil = omega arith; short = omega arith; text = refl; no_dot = refl }, tt),
)

abbrev query : Query
query = record {
  id_hi = 1;
  id_lo = 2;
  flags_hi = 1;
  flags_lo = 0;
  count_hi = 0;
  count_lo = 1;
  ancount = (0, 0);
  nscount = (0, 0);
  arcount = (0, 0);
  labels = labels;
  qtype_hi = 0;
  qtype_lo = 1;
  qclass = (0, 1);
  rest = [];
}

query-IsQuery : IsQuery query
query-IsQuery = record {
  flags_hi_byte = omega arith;
  flags_lo_byte = omega arith;
  qr_clear = omega arith;
  questions = λ e. omega arith;
  labels_are = labels_are;
}

parse_query-query_bytes_example :
    parse_query (query_bytes query) ≡ return (258, join b'.' labels, 1)
parse_query-query_bytes_example = parse_query-query_bytes query query-IsQuery

parse_query_total_example : (r : Option (ℕ × Bytes × ℕ)) × (parse_query (query_bytes query) ≡ ret r)
parse_query_total_example = parse_query_total (query_bytes query)

abbrev response : Bytes
response = build_a_response 258 (join b'.' labels) pool_start

abbrev answer_section : Bytes
answer_section = drop (12 + length (wire_name labels) + 4) response

a_response-answer_example :
    (from_be (take 2 response) ≡ 258)
    × (take 10 (drop 2 response) ≡ 0x81 ∷ 0x80 ∷ 0 ∷ 1 ∷ 0 ∷ 1 ∷ 0 ∷ 0 ∷ 0 ∷ 0 ∷ [])
    × (take (length (wire_name labels) + 4) (drop 12 response)
        ≡ wire_name labels ++ 0 ∷ 1 ∷ 0 ∷ 1 ∷ [])
    × (take 12 answer_section ≡ 0xC0 ∷ 12 ∷ 0 ∷ 1 ∷ 0 ∷ 1 ∷ 0 ∷ 0 ∷ 1 ∷ 44 ∷ 0 ∷ 4 ∷ [])
    × (length answer_section ≡ 16)
    × (from_be (drop 12 answer_section) ≡ pool_start)
a_response-answer_example =
    a_response-answer labels 258 pool_start labels_are (omega arith) (omega arith)

answer-target_for_example :
    (s : FakeDns) × (addr : ℕ) × (answer new (query_bytes query)
      ≡ ret (s, some (build_a_response 258 (join b'.' labels) addr)))
    × (target_for s addr 443 ≡ domain (join b'.' labels) 443)
answer-target_for_example =
    answer-target_for new (query_bytes query) 258 443 (join b'.' labels) new-IsValid
      (parse_query-query_bytes query query-IsQuery)
