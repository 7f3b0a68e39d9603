-- ===== src/Namespace/Binds/Accepted.antt =====
-- Which bind-mount options are accepted: files or symbolic links, and no target twice.
use nsproxy_rs.Base.{
  ◌≡◌, refl, ap, subst, sym, ◌∙◌, ◌↔◌, false, not, List, [], ◌∷◌, ◌++◌, Bytes, Result, ok,
  >>=-eq-ok, guard, guard-eq-ok, bytes_beq, arith,
}
use nsproxy_rs.Base.Text.{codes, split, contains, split-append, split_whole}
use nsproxy_rs.Base.Text.Pieces.{split_two}
use nsproxy_rs.Namespace.{Failure, message}
use nsproxy_rs.Namespace.Mounts.{BindMount}
use nsproxy_rs.Namespace.Binds.Objects.{
  with_errno-eq-ok, NoneOf, member-NoneOf, NoneOf-member, Names, inspect-Names, Names-inspect,
}
use nsproxy_rs.Namespace.Binds.{
  FileSystem, Metadata, Identity, identity, member, with_errno, inspect_bind_path, parse_fields,
  parse_mounts_from, internal_targets, parse_bind_mounts,
}

ok_injective : {A : Type 0} (a b : A) → Path (Result Failure A) (ok a) (ok b) → a ≡ b
ok_injective a b h = cc

fields_two :
    (fields : List Bytes) (s d : Bytes) (fs : FileSystem)
    → parse_fields fs fields ≡ ok (s, d)
    → (fields ≡ s ∷ d ∷ []) × (bytes_beq s [] ≡ false) × (bytes_beq d [] ≡ false)
unfolding parse_fields
fields_two (a ∷ b ∷ []) s d fs h = ground arith
fields_two [] s d fs h = cc
fields_two (a ∷ []) s d fs h = cc
fields_two (a ∷ b ∷ c ∷ rest) s d fs h = cc

module _ (fs : FileSystem) (cwd : Bytes) where
  -- "SRC:DST", where both sides are named and `id` is the object of the target.
  pub record Reads (spec : Bytes) (b : BindMount) (id : Identity) : Type 0 where
    pub source_text : Bytes
    pub target_text : Bytes
    pub source_object : Metadata
    pub target_object : Metadata
    pub spec_text : spec ≡ source_text ++ b':' ∷ target_text
    pub no_colon : (contains b':' source_text ≡ false) × (contains b':' target_text ≡ false)
    pub not_empty : (bytes_beq source_text [] ≡ false) × (bytes_beq target_text [] ≡ false)
    pub names_source : Names fs cwd source_text b.source source_object
    pub names_target : Names fs cwd target_text b.target target_object
    pub is_identity : id ≡ (target_object.dev, target_object.ino)

  pub ReadsAll : List Bytes → List BindMount → List Identity → Type 0
  ReadsAll [] [] [] = Unit
  ReadsAll (spec ∷ specs) (b ∷ bs) (id ∷ ids) = Reads spec b id × ReadsAll specs bs ids
  ReadsAll _ _ _ = ⊥

  -- No target is an internal one, and no object is the target of two mounts.
  pub Fresh : List Identity → List Identity → List Identity → Type 0
  Fresh internal seen [] = Unit
  Fresh internal seen (id ∷ ids) =
      NoneOf internal id × NoneOf seen id × Fresh internal (id ∷ seen) ids

  Reads-fields :
      {spec : Bytes} {b : BindMount} {id : Identity} (r : Reads spec b id)
      → parse_fields fs (split b':' spec) ≡ ok (r.source_text, r.target_text)
  unfolding parse_fields
  Reads-fields r =
      let shape : split b':' (r.source_text ++ b':' ∷ r.target_text)
          ≡ r.source_text ∷ r.target_text ∷ [] =
        split-append b':' r.source_text r.target_text r.no_colon.0
        ∙ ap (◌∷◌ r.source_text) (split_whole b':' r.target_text r.no_colon.1) in
      rw (r.spec_text, shape, r.not_empty.0, r.not_empty.1) refl

  outside_internal :
      (id : Identity) (internal : List Identity)
      → guard (not (member id internal)) (message "conflicts with an internal DNS mount") ≡ ok tt
      → NoneOf internal id
  outside_internal id internal h = member-NoneOf id internal (
      ground (
        arith,
        guard-eq-ok (not (member id internal)) (message "conflicts with an internal DNS mount") h,
      ))

  outside_seen :
      (id : Identity) (seen : List Identity)
      → guard (not (member id seen)) (message "duplicate bind mount target") ≡ ok tt
      → NoneOf seen id
  outside_seen id seen h =
      member-NoneOf id seen (
        ground
          (arith, guard-eq-ok (not (member id seen)) (message "duplicate bind mount target") h))

  from-accepted :
      (internal seen : List Identity) (specs : List Bytes) (bs : List BindMount)
      → parse_mounts_from fs internal seen cwd specs ≡ ok bs
      → (ids : List Identity) × ReadsAll specs bs ids × Fresh internal seen ids
  unfolding parse_mounts_from ReadsAll Fresh
  from-accepted internal seen [] [] h = ([], tt, tt)
  from-accepted internal seen [] (b ∷ bs) h = cc
  from-accepted internal seen (spec ∷ specs) bs h =
      let ((s, d), fields, h1) = >>=-eq-ok (parse_fields fs (split b':' spec)) _ h in
      let ((source, sid), named_s, h2) = >>=-eq-ok (inspect_bind_path fs s cwd) _ h1 in
      let ((target, tid), named_d, h3) = >>=-eq-ok (inspect_bind_path fs d cwd) _ h2 in
      let (u, outside, h4) =
        >>=-eq-ok
          (guard (not (member tid internal)) (message "conflicts with an internal DNS mount")) _
          h3 in
      let (v, unseen, h5) =
        >>=-eq-ok (guard (not (member tid seen)) (message "duplicate bind mount target")) _ h4 in
      let (rest, more, h6) =
        >>=-eq-ok (parse_mounts_from fs internal (tid ∷ seen) cwd specs) _ h5 in
      let b : BindMount = record { source = source; target = target } in
      let (ids, reads, fresh) = from-accepted internal (tid ∷ seen) specs rest more in
      let (shape, full_s, full_d) = fields_two (split b':' spec) s d fs fields in
      let (text, no_s, no_d) = split_two b':' spec s d shape in
      let (ms, ns, es) = inspect-Names fs cwd s source sid named_s in
      let (md, nd, ed) = inspect-Names fs cwd d target tid named_d in
      let e : b ∷ rest ≡ bs = cc in
      (
        tid ∷ ids,
        subst (λ l. ReadsAll (spec ∷ specs) l (tid ∷ ids)) e
            (
              record {
                source_text = s;
                target_text = d;
                source_object = ms;
                target_object = md;
                spec_text = text;
                no_colon = (no_s, no_d);
                not_empty = (full_s, full_d);
                names_source = ns;
                names_target = nd;
                is_identity = ed;
              },
              reads,
            ),
        (outside_internal tid internal outside, outside_seen tid seen unseen, fresh),
      )

  accepted-from :
      (internal seen : List Identity) (specs : List Bytes) (bs : List BindMount)
      (ids : List Identity)
      → ReadsAll specs bs ids
      → Fresh internal seen ids
      → parse_mounts_from fs internal seen cwd specs ≡ ok bs
  unfolding parse_mounts_from ReadsAll Fresh
  accepted-from internal seen [] [] [] r f = refl
  accepted-from internal seen (spec ∷ specs) (b ∷ bs) (id ∷ ids) (r, rs) (outside, unseen, f) =
      let target = identity r.target_object in
      let out : member target internal ≡ false =
        subst (λ i. member i internal ≡ false) r.is_identity (NoneOf-member id internal outside) in
      let new : member target seen ≡ false =
        subst (λ i. member i seen ≡ false) r.is_identity (NoneOf-member id seen unseen) in
      let rest : parse_mounts_from fs internal (target ∷ seen) cwd specs ≡ ok bs =
        subst (λ i. parse_mounts_from fs internal (i ∷ seen) cwd specs ≡ ok bs) r.is_identity
          (accepted-from internal (id ∷ seen) specs bs ids rs f) in
      rw
        (
          Reads-fields r,
          Names-inspect fs cwd r.source_text b.source r.source_object r.names_source,
          Names-inspect fs cwd r.target_text b.target r.target_object r.names_target,
          out,
          new,
          rest,
        )
        refl
  accepted-from internal seen [] [] (id ∷ ids) r f = elim r [ ]
  accepted-from internal seen [] (b ∷ bs) ids r f = elim r [ ]
  accepted-from internal seen (spec ∷ specs) [] ids r f = elim r [ ]
  accepted-from internal seen (spec ∷ specs) (b ∷ bs) [] r f = elim r [ ]

  -- A command line with at least one option is accepted exactly if both files of the resolver can be
  -- inspected, every option has the form SRC:DST and names two files or symbolic links, and no target
  -- is a file of the resolver or the target of two options; the mounts have the absolute paths, in
  -- order.
  pub parse_bind_mounts_iff :
      (spec : Bytes) (specs : List Bytes) (bs : List BindMount)
      → (parse_bind_mounts fs (spec ∷ specs) cwd ≡ ok bs) ↔ (
          (resolv : Metadata) × (nsswitch : Metadata) × (ids : List Identity) × (fs
              (codes "/etc/resolv.conf")
            ≡ ok resolv)
          × (fs (codes "/etc/nsswitch.conf") ≡ ok nsswitch)
          × ReadsAll (spec ∷ specs) bs ids
          × Fresh ((resolv.dev, resolv.ino) ∷ (nsswitch.dev, nsswitch.ino) ∷ []) [] ids)
  unfolding parse_bind_mounts internal_targets
  parse_bind_mounts_iff spec specs bs = (
    λ h.
        let (internal, inspected, h1) = >>=-eq-ok (internal_targets fs) _ h in
        let (resolv, e1, i1) =
          >>=-eq-ok
            (with_errno "inspect internal bind-mount targets" (fs (codes "/etc/resolv.conf"))) _
            inspected in
        let (nsswitch, e2, i2) =
          >>=-eq-ok
            (with_errno "inspect internal bind-mount targets" (fs (codes "/etc/nsswitch.conf"))) _
            i1 in
        let same : identity resolv ∷ identity nsswitch ∷ [] ≡ internal = ok_injective _ _ i2 in
        let (ids, r, f) = from-accepted internal [] (spec ∷ specs) bs h1 in
        (
          resolv,
          nsswitch,
          ids,
          with_errno-eq-ok _ _ e1,
          with_errno-eq-ok _ _ e2,
          r,
          subst (λ l. Fresh l [] ids) (sym same) f,
        ),
    λ (resolv, nsswitch, ids, e1, e2, r, f).
        rw (e1, e2)
          (accepted-from (identity resolv ∷ identity nsswitch ∷ []) [] (spec ∷ specs) bs ids r f),
  )
