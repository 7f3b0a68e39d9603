-- ===== src/DnsPacket/Queries.antt =====
-- Whole queries read from the wire.
use nsproxy_rs.Base.{
  ℕ, suc, ◌+◌, ◌≤◌, ◌<◌, ◌≡◌, ◌≢◌, refl, true, false, List, [], ◌∷◌, ◌++◌, Bytes, length, arith,
  All, ltb, ◌==◌, length-append, append_assoc,
}
use nsproxy_rs.Base.Text.{join}
use nsproxy_rs.DnsPacket.{be16, ◌>>=◌, return, return_none, test_bit, at, read_labels, parse_query}
use nsproxy_rs.DnsPacket.RoundTrip.{IsLabel, wire_name, at-append, read_labels-wire_name}

-- A query on the wire: its twelve header bytes, the name, the type and class, and what follows.
pub record Query : Type 0 where
  pub id_hi : ℕ
  pub id_lo : ℕ
  pub flags_hi : ℕ
  pub flags_lo : ℕ
  pub count_hi : ℕ
  pub count_lo : ℕ
  pub ancount : ℕ × ℕ
  pub nscount : ℕ × ℕ
  pub arcount : ℕ × ℕ
  pub labels : List Bytes
  pub qtype_hi : ℕ
  pub qtype_lo : ℕ
  pub qclass : ℕ × ℕ
  pub rest : Bytes

-- The twelve bytes of the header.
abbrev pub query_header : Query → Bytes
query_header q =
    q.id_hi ∷ q.id_lo ∷ q.flags_hi ∷ q.flags_lo ∷ q.count_hi ∷ q.count_lo ∷ q.ancount.0
    ∷ q.ancount.1 ∷ q.nscount.0 ∷ q.nscount.1 ∷ q.arcount.0 ∷ q.arcount.1 ∷ []

abbrev pub query_bytes : Query → Bytes
query_bytes q =
    query_header q
    ++ (wire_name q.labels ++ (q.qtype_hi ∷ q.qtype_lo ∷ q.qclass.0 ∷ q.qclass.1 ∷ q.rest))

pub record IsQuery (q : Query) : Type 0 where
  pub flags_hi_byte : q.flags_hi < 256
  pub flags_lo_byte : q.flags_lo < 256
  pub qr_clear : q.flags_hi < 128
  pub questions : q.count_hi + q.count_lo ≢ 0
  pub labels_are : All IsLabel q.labels

labels-le-wire_name : (ls : List Bytes) → length ls ≤ length (wire_name ls)
labels-le-wire_name [] = omega arith
labels-le-wire_name (l ∷ ls) = omega (arith, labels-le-wire_name ls, length-append l (wire_name ls))

-- `parse_query` from what its reads and tests give.
module _ (bytes : Bytes) (long : ltb (length bytes) 12 ≡ false) {a b c d : ℕ}
    (at0 : at bytes 0 ≡ return a) (at1 : at bytes 1 ≡ return b) (at2 : at bytes 2 ≡ return c)
    (at3 : at bytes 3 ≡ return d) where
  pub parse_query_response : test_bit (be16 c d) 15 ≡ true → parse_query bytes ≡ return_none
  unfolding parse_query
  parse_query_response h =
      rw (long, at0, ◌>>=◌) (rw (at1, ◌>>=◌) (rw (at2, ◌>>=◌) (rw (at3, ◌>>=◌) (rw (h, ◌>>=◌)))))

  parse_query_lem :
      {e f hi lo pos : ℕ} {labels : List Bytes}
      → test_bit (be16 c d) 15 ≡ false
      → at bytes 4 ≡ return e
      → at bytes 5 ≡ return f
      → (be16 e f == 0) ≡ false
      → read_labels (suc (length bytes)) bytes 12 [] ≡ return (labels, pos)
      → ltb (length bytes) (pos + 4) ≡ false
      → at bytes pos ≡ return hi
      → at bytes (pos + 1) ≡ return lo
      → parse_query bytes ≡ return (be16 a b, join b'.' labels, be16 hi lo)
  unfolding parse_query
  parse_query_lem query at4 at5 asks loop room at_hi at_lo =
      rw (long, at0, ◌>>=◌)
        (rw (at1, ◌>>=◌)
          (rw (at2, ◌>>=◌)
            (rw (at3, ◌>>=◌)
              (rw (query, ◌>>=◌)
                (rw (at4, ◌>>=◌)
                  (rw (at5, ◌>>=◌)
                    (rw (asks, ◌>>=◌)
                      (rw (loop, ◌>>=◌)
                        (rw (room, ◌>>=◌) (rw (at_hi, ◌>>=◌) (rw (at_lo, ◌>>=◌))))))))))))

-- The part of `parse_query` behind the header.
question_bytes :
    (q : Query)
    → All IsLabel q.labels
    → let bytes = query_bytes q in
      let pos = 12 + length (wire_name q.labels) in
      (read_labels (suc (length bytes)) bytes 12 [] ≡ return (q.labels, pos))
      × (at bytes pos ≡ return q.qtype_hi)
      × (at bytes (pos + 1) ≡ return q.qtype_lo)
      × (pos + 4 ≤ length bytes)
question_bytes q h =
    let head = query_header q in
    let w = wire_name q.labels in
    let tail = q.qtype_lo ∷ q.qclass.0 ∷ q.qclass.1 ∷ q.rest in
    let bytes = query_bytes q in
    let n : length bytes ≡ 12 + length w + 4 + length q.rest =
      omega (arith, length-append w (q.qtype_hi ∷ tail)) in
    let split_hi : (head ++ w) ++ q.qtype_hi ∷ tail ≡ bytes = refl in
    let split_lo : (head ++ (w ++ q.qtype_hi ∷ [])) ++ tail ≡ bytes =
      rw (append_assoc w (q.qtype_hi ∷ []) tail) in
    let n_hi : length (head ++ w) ≡ 12 + length w = omega arith in
    let n_lo : length (head ++ (w ++ q.qtype_hi ∷ [])) ≡ 12 + length w + 1 =
      omega (arith, length-append w (q.qtype_hi ∷ [])) in
    (
      read_labels-wire_name q.labels head (q.qtype_hi ∷ tail) (suc (length bytes)) [] h
          (omega (arith, n, labels-le-wire_name q.labels)),
      cc (n_hi, at-append (head ++ w) q.qtype_hi tail),
      cc (
        n_lo,
        split_lo,
        at-append (head ++ (w ++ q.qtype_hi ∷ [])) q.qtype_lo (q.qclass.0 ∷ q.qclass.1 ∷ q.rest),
      ),
      omega (arith, n),
    )

-- A query on the wire is parsed into its identifier, its dotted name and its type, whatever its
-- other counts, its class and the bytes behind the question.
pub parse_query-query_bytes :
    (q : Query)
    → IsQuery q
    → parse_query (query_bytes q)
      ≡ return (be16 q.id_hi q.id_lo, join b'.' q.labels, be16 q.qtype_hi q.qtype_lo)
unfolding at
parse_query-query_bytes q v =
    let bytes = query_bytes q in
    let pos = 12 + length (wire_name q.labels) in
    let (loop, hi, lo, fits) = question_bytes q v.labels_are in
    let long : ltb (length bytes) 12 ≡ false = ground (arith, fits) in
    let query : test_bit (be16 q.flags_hi q.flags_lo) 15 ≡ false =
      ground (arith, v.qr_clear, v.flags_lo_byte) in
    let asks : (be16 q.count_hi q.count_lo == 0) ≡ false = ground (arith, v.questions) in
    let room : ltb (length bytes) (pos + 4) ≡ false = ground (arith, fits) in
    parse_query_lem bytes long refl refl refl refl query refl refl asks loop room hi lo
