-- ===== src/Startup/Acknowledge.antt =====
-- src/main.rs: the maps that the parent writes before it acknowledges them.
use nsproxy_rs.Base.{ℕ, ◌≡◌, Bool, true, false, List, [], ◌∷◌, inl, inr, arith}
use nsproxy_rs.Base.Text.{codes}
use nsproxy_rs.Sys.{
  Answer-cases, Kernel, Post, Post-bind, Post-weaken, Post-map, Post-both, require, attempt,
}
use nsproxy_rs.Namespace.{Call, Calls, write, getuid, getgid, system}
use nsproxy_rs.Namespace.Net.{write_id_maps, proc_path, id_map}
use nsproxy_rs.Startup.{map_ids}
use nsproxy_rs.Startup.Channel.{Message, byte, sent, received, launched, Chan, write_id_maps-Chan}
use nsproxy_rs.Startup.Child.{acks}
use nsproxy_rs.Startup.Maps.{
  Did, Lasting, Did-Lasting, attempt-Did, Wrote, MapsWritten, MapsWritten-Lasting,
  write_id_maps-Wrote,
}

module _ (k : Kernel Call) (child : ℕ) where
  abbrev pub Mapped : Bool → Calls → Type 0
  Mapped maps t = maps ≡ true → MapsWritten child t

  -- The maps end with the acknowledgement.
  acknowledge-Chan :
      {r : List Message} (sock : ℕ) (t : Calls)
      → Chan [] r t
      → MapsWritten child t
      → Post
          (λ u t'. Chan (byte 1 ∷ []) r t' × MapsWritten child t')
          (Chan [] r)
          (require (write sock (1 ∷ [])) (system "signal child maps done") k t)
  unfolding sent received launched
  acknowledge-Chan sock t h m = elim (Answer-cases (k t (write sock (1 ∷ [])))) [
    | inl (n, bytes, success) ↦ rw success (ground arith, MapsWritten-Lasting child _ t m)
    | inr (errno, failure) ↦ rw failure (ground arith)
  ]

  write_id_maps-MapsWritten :
      {r : List Message} (uid gid : ℕ) (t : Calls)
      → Chan [] r t
      → Did getuid uid t
      → Did getgid gid t
      → Post
          (λ u t'. Chan [] r t' × MapsWritten child t')
          (Chan [] r)
          (write_id_maps child uid gid k t)
  write_id_maps-MapsWritten {r = r} uid gid t h hu hg =
      let Idle : Calls → Type 0 = Chan [] r in
      let Ids : Calls → Type 0 = λ t'. Did getuid uid t' × Did getgid gid t' in
      let Written : Calls → Type 0 = λ t'.
        Wrote (proc_path child (codes "gid_map")) (id_map gid) t'
        × (Wrote (proc_path child (codes "uid_map")) (id_map uid) t' × Ids t') in
      let run = write_id_maps child uid gid k t in
      Post-map (λ u t'. Idle t' × Written t') (λ u t'. Idle t' × MapsWritten child t')
        (λ t'. Idle t' × Unit {0}) Idle run
        (λ u t' (c, w). (
          c,
          record {
            uid = uid;
            gid = gid;
            is_uid = w.1.1.0;
            is_gid = w.1.1.1;
            wrote_uid = w.1.0;
            wrote_gid = w.0;
          },
        ))
        (λ t' both. both.0)
        (Post-both (λ u. Idle) (λ u. Written) Idle (λ t'. Unit {0}) run
          (write_id_maps-Chan k child uid gid t h)
          (write_id_maps-Wrote k Ids
            (λ e t' ids. (Did-Lasting getuid uid e t' ids.0, Did-Lasting getgid gid e t' ids.1))
            child uid gid t (hu, hg)))

  map_ids-Mapped :
      {r : List Message} (sock : ℕ) (t : Calls)
      → Chan [] r t
      → Post
          (λ u t'. Chan (byte 1 ∷ []) r t' × MapsWritten child t')
          (Chan [] r)
          (map_ids sock child true k t)
  unfolding map_ids sent received launched
  map_ids-Mapped {r = r} sock t h =
      let P : Unit → Calls → Type 0 = λ u t'. Chan (byte 1 ∷ []) r t' × MapsWritten child t' in
      let Idle : Calls → Type 0 = Chan [] r in
      Post-bind P Idle (λ uid t'. Did getuid uid t' × Idle t') k
        (attempt getuid (system "getuid") k t) _
        (attempt-Did k Idle getuid (λ a t' c. ground arith) _ t h)
        λ uid t1 h1.
          let I : Calls → Type 0 = λ t'. Did getuid uid t' × Idle t' in
          Post-bind P Idle (λ gid t'. Did getgid gid t' × I t') k
            (attempt getgid (system "getgid") k t1) _
            (Post-weaken (λ gid t'. Did getgid gid t' × I t') I Idle
              (attempt getgid (system "getgid") k t1) (λ t' both. both.1)
              (attempt-Did k I getgid (λ a t' c. (Did-Lasting getuid uid _ t' c.0, ground arith)) _
                t1 h1))
            λ gid t2 h2.
              Post-bind P Idle (λ u t'. Idle t' × MapsWritten child t') k
                (write_id_maps child uid gid k t2) _
                (write_id_maps-MapsWritten uid gid t2 h2.1.1 h2.1.0 h2.0)
                λ u t3 h3. acknowledge-Chan sock t3 h3.0 h3.1

  pub map_ids-Chan :
      (sock : ℕ) (maps : Bool) {r : List Message} (t : Calls)
      → Chan [] r t
      → Post
          (λ u t'. Chan (acks maps) r t' × Mapped maps t')
          (Chan [] r)
          (map_ids sock child maps k t)
  unfolding map_ids
  map_ids-Chan sock false t h = (h, λ e. absurd (cc e))
  map_ids-Chan sock true {r = r} t h =
      Post-map (λ u t'. Chan (byte 1 ∷ []) r t' × MapsWritten child t')
        (λ u t'. Chan (byte 1 ∷ []) r t' × Mapped true t') (Chan [] r) (Chan [] r)
        (map_ids sock child true k t) (λ u t' (c, m). (c, λ e. m)) (λ t' c. c)
        (map_ids-Mapped sock t h)

  pub Mapped-Lasting : (maps : Bool) → Lasting (Mapped maps)
  Mapped-Lasting maps e t m needs = MapsWritten-Lasting child e t (m needs)
