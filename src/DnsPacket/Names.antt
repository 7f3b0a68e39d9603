-- ===== src/DnsPacket/Names.antt =====
-- `encode_name` against the wire format of names.
use nsproxy_rs.Base.{
  ◌%◌, ◌≤◌, ◌≡◌, ◌≢◌, refl, ap, ◌∙◌, false, List, [], ◌∷◌, ◌++◌, Bytes, length, arith, All,
  append_assoc,
}
use nsproxy_rs.Base.Text.{contains, join, split, split-join}
use nsproxy_rs.DnsPacket.{encode_labels, encode_name}
use nsproxy_rs.DnsPacket.RoundTrip.{IsLabel, wire_name}

encode_name_lem : (d : Bytes) → d ≢ [] → encode_name d ≡ encode_labels (split b'.' d) ++ 0 ∷ []
unfolding encode_name
encode_name_lem [] h = absurd (h refl)
encode_name_lem (c ∷ d) h = refl

encode_labels-wire_name :
    (ls : List Bytes) → All IsLabel ls → encode_labels ls ++ 0 ∷ [] ≡ wire_name ls
unfolding encode_labels
encode_labels-wire_name [] h = refl
encode_labels-wire_name (l ∷ ls) h =
    let small : length l % 256 ≡ length l = omega (arith, h.0.short) in
    rw (small, append_assoc l (encode_labels ls) (0 ∷ []), encode_labels-wire_name ls h.1)

join-ne-nil : (l : Bytes) (ls : List Bytes) → 1 ≤ length l → join b'.' (l ∷ ls) ≢ []
unfolding join
join-ne-nil [] ls h = absurd (omega arith)
join-ne-nil (c ∷ l) [] h = λ e. cc
join-ne-nil (c ∷ l) (k ∷ ls) h = λ e. cc

no_dots : (ls : List Bytes) → All IsLabel ls → All (λ q. contains b'.' q ≡ false) ls
no_dots [] h = tt
no_dots (l ∷ ls) h = (h.0.no_dot, no_dots ls h.1)

-- Encoding the dotted form of a list of labels gives their wire format, the root name included.
pub encode_name-join :
    (ls : List Bytes) → All IsLabel ls → encode_name (join b'.' ls) ≡ wire_name ls
encode_name-join [] h = unfold encode_name join in refl
encode_name-join (l ∷ ls) h =
    encode_name_lem _ (join-ne-nil l ls h.0.ne_nil)
    ∙ ap (λ q. encode_labels q ++ 0 ∷ []) (split-join b'.' l ls (no_dots (l ∷ ls) h))
    ∙ encode_labels-wire_name (l ∷ ls) h
