-- ===== src/Tun/Syn.antt =====
-- The recognition of SYN packets, on arbitrary packets and on packets in the format of RFC 791 and
-- RFC 9293.
use nsproxy_rs.Base.{
  ℕ, ◌+◌, ◌*◌, ◌/◌, ◌%◌, ◌≤◌, ◌<◌, ◌≡◌, refl, true, false, ◌&&◌, not, ◌∷◌, ◌++◌, Option, Bytes, ret,
  length, ltb, ◌==◌, arith, length-append, get_elem?-offset,
}
use nsproxy_rs.FakeDns.{u32_from_be_bytes}
use nsproxy_rs.DnsPacket.{be16, test_bit, ◌>>=◌, return, at}
use nsproxy_rs.DnsPacket.Safety.{value, Returns-none_if, Returns-at, Returns-total}
use nsproxy_rs.Tun.{parse_tcp_syn}

-- On every packet the test for a SYN returns: the header length that the packet claims never leads
-- it out of range.
pub parse_tcp_syn_total :
    (bytes : Bytes) → (r : Option (ℕ × ℕ × ℕ × ℕ)) × (parse_tcp_syn bytes ≡ ret r)
unfolding parse_tcp_syn
parse_tcp_syn_total bytes = Returns-total {P = λ _. Unit {0}} {m = parse_tcp_syn bytes} (
    Returns-none_if (ltb (length bytes) 40) _ λ long. Returns-at bytes 0 _ (ground arith) λ first.
      Returns-none_if (not (first / 16 == 4)) _ λ v4.
        Returns-at bytes 9 _ (ground arith) λ protocol.
          Returns-none_if (not (protocol == 6)) _ λ tcp.
            Returns-none_if (ltb (length bytes) (first % 16 * 4 + 20)) _ λ fits.
              let within : first % 16 * 4 + 20 ≤ length bytes = ground arith in
              Returns-at bytes (first % 16 * 4 + 13) _ (omega arith) λ flags.
                Returns-none_if (not (test_bit flags 1 && not (test_bit flags 4))) _ λ syn.
                  Returns-at bytes 12 _ (ground arith) λ a.
                    Returns-at bytes 13 _ (ground arith) λ b.
                      Returns-at bytes 14 _ (ground arith) λ c.
                        Returns-at bytes 15 _ (ground arith) λ d.
                          Returns-at bytes (first % 16 * 4) _ (omega arith) λ p.
                            Returns-at bytes (first % 16 * 4 + 1) _ (omega arith) λ q.
                              Returns-at bytes 16 _ (ground arith) λ e.
                                Returns-at bytes 17 _ (ground arith) λ f.
                                  Returns-at bytes 18 _ (ground arith) λ g.
                                    Returns-at bytes 19 _ (ground arith) λ h.
                                      Returns-at bytes (first % 16 * 4 + 2) _ (omega arith) λ r.
                                        Returns-at bytes (first % 16 * 4 + 3) _ (omega arith)
                                          λ s. value tt)

-- A SYN segment in an IPv4 packet: `words` is the header length in words of four bytes, `filler` and
-- `middle` are the header bytes that play no role.
pub record SynPacket : Type 0 where
  pub words : ℕ
  pub filler : ℕ × ℕ × ℕ × ℕ × ℕ × ℕ × ℕ × ℕ
  pub checksum : ℕ × ℕ
  pub source : ℕ × ℕ × ℕ × ℕ
  pub destination : ℕ × ℕ × ℕ × ℕ
  pub options : Bytes
  pub source_port : ℕ × ℕ
  pub destination_port : ℕ × ℕ
  pub middle : ℕ × ℕ × ℕ × ℕ × ℕ × ℕ × ℕ × ℕ × ℕ
  pub flags : ℕ
  pub rest : Bytes

abbrev ip_header : SynPacket → Bytes
ip_header p =
    let (a, b, c, d, e, f, g, ttl) = p.filler in
    (64 + p.words)
    ∷ a
    ∷ b
    ∷ c
    ∷ d
    ∷ e
    ∷ f
    ∷ g
    ∷ ttl
    ∷ 6
    ∷ p.checksum.0
    ∷ p.checksum.1
    ∷ p.source.0
    ∷ p.source.1
    ∷ p.source.2
    ∷ p.source.3
    ∷ p.destination.0
    ∷ p.destination.1
    ∷ p.destination.2
    ∷ p.destination.3
    ∷ p.options

abbrev tcp_segment : SynPacket → Bytes
tcp_segment p =
    let (a, b, c, d, e, f, g, h, i) = p.middle in
    p.source_port.0 ∷ p.source_port.1 ∷ p.destination_port.0 ∷ p.destination_port.1 ∷ a ∷ b ∷ c ∷ d
    ∷ e ∷ f ∷ g ∷ h ∷ i ∷ p.flags ∷ p.rest

abbrev pub syn_bytes : SynPacket → Bytes
syn_bytes p = ip_header p ++ tcp_segment p

-- The options fill the header, the segment has a full TCP header, and SYN is set without ACK.
pub record IsSyn (p : SynPacket) : Type 0 where
  pub short : p.words < 16
  pub options_length : 20 + length p.options ≡ p.words * 4
  pub rest_length : 6 ≤ length p.rest
  pub syn_set : test_bit p.flags 1 ≡ true
  pub ack_clear : test_bit p.flags 4 ≡ false

at-append_offset : (xs ys : Bytes) (i k : ℕ) → i ≡ length xs + k → at (xs ++ ys) i ≡ at ys k
unfolding at
at-append_offset xs ys i k h = rw (at, get_elem?-offset xs ys i k h) refl

-- A SYN segment is recognised with its own addresses and ports, whatever IP options it carries.
pub parse_tcp_syn-syn_bytes :
    (p : SynPacket)
    → IsSyn p
    → parse_tcp_syn (syn_bytes p)
      ≡ return (
        u32_from_be_bytes p.source.0 p.source.1 p.source.2 p.source.3,
        be16 p.source_port.0 p.source_port.1,
        u32_from_be_bytes p.destination.0 p.destination.1 p.destination.2 p.destination.3,
        be16 p.destination_port.0 p.destination_port.1,
      )
unfolding parse_tcp_syn at
parse_tcp_syn-syn_bytes p v =
    let total : length (syn_bytes p) ≡ p.words * 4 + 14 + length p.rest =
      omega (arith, length-append (ip_header p) (tcp_segment p), v.options_length) in
    let long : ltb (length (syn_bytes p)) 40 ≡ false =
      ground (arith, v.options_length, v.rest_length) in
    let version : ((64 + p.words) / 16 == 4) ≡ true = ground (arith, v.short) in
    let ihl : (64 + p.words) % 16 * 4 ≡ p.words * 4 = omega (arith, v.short) in
    let fits : ltb (length (syn_bytes p)) (p.words * 4 + 20) ≡ false =
      ground (arith, v.rest_length) in
    let field : (i k : ℕ)
        → i ≡ length (ip_header p) + k
        → at (syn_bytes p) i ≡ at (tcp_segment p) k =
      at-append_offset (ip_header p) (tcp_segment p) in
    rw (parse_tcp_syn, long, ◌>>=◌)
      (rw (version, ihl, fits, ◌>>=◌)
        (rw (field (p.words * 4 + 13) 13 (omega (arith, v.options_length)), ◌>>=◌)
          (rw (v.syn_set, v.ack_clear, ◌>>=◌)
            (rw (field (p.words * 4) 0 (omega (arith, v.options_length)), ◌>>=◌)
              (rw (field (p.words * 4 + 1) 1 (omega (arith, v.options_length)), ◌>>=◌)
                (rw (field (p.words * 4 + 2) 2 (omega (arith, v.options_length)), ◌>>=◌)
                  (rw (field (p.words * 4 + 3) 3 (omega (arith, v.options_length)), ◌>>=◌)
                    refl)))))))
