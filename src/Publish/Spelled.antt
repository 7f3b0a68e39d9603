-- ===== src/Publish/Spelled.antt =====
-- src/publish.rs: `parse_publish_spec` reads exactly the texts that stand for a publication.
use nsproxy_rs.Base.{
  ◌≡◌, refl, sym, ap, subst, ◌∙◌, ◌↔◌, inl, inr, Option-cases, true, List, [], ◌∷◌, ◌++◌, Bytes, ok,
  guard, or_fail, bytes_beq, bytes_beq_iff, >>=-eq-ok, or_fail-eq-ok, guard-eq-ok,
}
use nsproxy_rs.Base.Text.{
  codes, join, split, split-join, split_once, split_once-append, split_once_absent,
}
use nsproxy_rs.Std.Address.{parse_ipv4}
use nsproxy_rs.Publish.{
  PublishSpec, invalid_address, unsupported_protocol, parse_port, parse_fields, split_protocol,
  parse_publish_spec,
}
use nsproxy_rs.Base.Text.Pieces.{join-split, split-All, split_once-eq-none, split_once-eq-some}
use nsproxy_rs.Publish.Texts.{Apart, SpellsAddress, Spells, parse_port-eq-ok, SpellsPort-parse_port}

parse_fields-eq-ok :
    (address : Bytes) (pieces : List Bytes) (s : PublishSpec)
    → join b':' pieces ≡ address
    → Apart pieces
    → parse_fields pieces ≡ ok s
    → SpellsAddress address s
unfolding parse_fields join
parse_fields-eq-ok address (h ∷ n ∷ []) s w free e =
    let (p, e1, h1) = >>=-eq-ok (parse_port h) _ e in
    let (q, e2, h2) = >>=-eq-ok (parse_port n) _ h1 in
    let read : PublishSpec = record { host_ip = 0; host_port = p; namespace_port = q } in
    let same : read ≡ s = cc in
    subst (SpellsAddress address) same
      (inl (h, n, sym w, free, refl, parse_port-eq-ok h p e1, parse_port-eq-ok n q e2))
parse_fields-eq-ok address (a ∷ h ∷ n ∷ []) s w free e =
    let (ip, e0, h0) = >>=-eq-ok (or_fail (parse_ipv4 a) invalid_address) _ e in
    let (p, e1, h1) = >>=-eq-ok (parse_port h) _ h0 in
    let (q, e2, h2) = >>=-eq-ok (parse_port n) _ h1 in
    let read : PublishSpec = record { host_ip = ip; host_port = p; namespace_port = q } in
    let same : read ≡ s = cc in
    subst (SpellsAddress address) same (
      inr (
        a,
        h,
        n,
        sym w,
        free,
        or_fail-eq-ok (parse_ipv4 a) invalid_address e0,
        parse_port-eq-ok h p e1,
        parse_port-eq-ok n q e2,
      ))
parse_fields-eq-ok address [] s w free e = cc
parse_fields-eq-ok address (a ∷ []) s w free e = cc
parse_fields-eq-ok address (a ∷ b ∷ c ∷ d ∷ more) s w free e = cc

SpellsAddress-parse_fields :
    (address : Bytes) (s : PublishSpec)
    → SpellsAddress address s
    → parse_fields (split b':' address) ≡ ok s
unfolding parse_fields join
SpellsAddress-parse_fields address s (inl (h, n, w, free, any, p, q)) =
    let pieces = split-join b':' h (n ∷ []) free in
    rw
      (w, pieces, SpellsPort-parse_port h s.host_port p, SpellsPort-parse_port n s.namespace_port q)
      (ap (λ i. ok (record s { host_ip = i })) (sym any))
SpellsAddress-parse_fields address s (inr (a, h, n, w, free, e, p, q)) =
    let pieces = split-join b':' a (h ∷ n ∷ []) free in
    rw
      (
        w,
        pieces,
        e,
        SpellsPort-parse_port h s.host_port p,
        SpellsPort-parse_port n s.namespace_port q,
      )
      refl

-- A text is read as a publication exactly if it stands for it.
pub parse_publish_spec_iff :
    (raw : Bytes) (s : PublishSpec) → (parse_publish_spec raw ≡ ok s) ↔ Spells raw s
unfolding parse_publish_spec
parse_publish_spec_iff raw s = (
  λ h.
      let (u, tcp, h1) =
        >>=-eq-ok (guard (bytes_beq (split_protocol raw).1 (codes "tcp")) unsupported_protocol) _
          h in
      let is_tcp =
        guard-eq-ok (bytes_beq (split_protocol raw).1 (codes "tcp")) unsupported_protocol tcp in
      read_back is_tcp h1,
  read,
)
  where
    address_of :
        (address : Bytes) → parse_fields (split b':' address) ≡ ok s → SpellsAddress address s
    address_of address e =
        parse_fields-eq-ok address (split b':' address) s (join-split b':' address)
          (split-All b':' address) e

    read_back :
        bytes_beq (split_protocol raw).1 (codes "tcp") ≡ true
        → parse_fields (split b':' (split_protocol raw).0) ≡ ok s
        → Spells raw s
    read_back tcp e = elim (Option-cases (split_once b'/' raw)) [
      | inl n ↦ (
        raw,
        split_once-eq-none b'/' raw n,
        inl refl,
        address_of raw (rw (split_protocol, n) at e),
      )
      | inr ((address, protocol), f) ↦
          let (whole, free) = split_once-eq-some b'/' raw address protocol f in
          let is_tcp : protocol ≡ codes "tcp" =
            (bytes_beq_iff protocol (codes "tcp")).0 (rw (split_protocol, f) at tcp) in
          (
            address,
            free,
            inr (whole ∙ ap (λ l. address ++ b'/' ∷ l) is_tcp),
            address_of address (rw (split_protocol, f) at e),
          )
    ]

    read : Spells raw s → parse_publish_spec raw ≡ ok s
    read (address, free, inl w, spelled) =
        subst (λ r. parse_publish_spec r ≡ ok s) (sym w)
          (rw (split_protocol, split_once_absent b'/' address free)
            (SpellsAddress-parse_fields address s spelled))
    read (address, free, inr w, spelled) =
        subst (λ r. parse_publish_spec r ≡ ok s) (sym w)
          (rw (split_protocol, split_once-append b'/' address (codes "tcp") free)
            (SpellsAddress-parse_fields address s spelled))
