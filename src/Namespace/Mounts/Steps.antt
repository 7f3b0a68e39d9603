-- ===== src/Namespace/Mounts/Steps.antt =====
-- src/namespace.rs: what every step of the set-up of the mounts keeps, the whole keeps.
use nsproxy_rs.Base.{ℕ, List, [], ◌∷◌, Bytes, inl, inr}
use nsproxy_rs.Base.Text.{codes}
use nsproxy_rs.Sys.{Answer, Answer-cases, Kernel, Keeps, require, ignore}
use nsproxy_rs.Namespace.{
  CloneFlag, Call, Calls, Failure, MountKind, then-Keeps, tmpfs, system, unshare, new_ns, mount,
  rec_private,
}
use nsproxy_rs.Namespace.Mounts.{
  BindMount, bind_mount_tmpfile, bind_mount_nofollow, bind_mount_all, setup_mount_namespace,
  resolv_conf,
}

module _ (k : Kernel Call) (I : Calls → Type 0)
    (unshare-I : (flags : List CloneFlag) (a : Answer) (t : Calls)
      → I t
      → I ((unshare flags, a) ∷ t))
    (mount-I : (how : MountKind) (source target : Bytes) (a : Answer) (t : Calls)
      → I t
      → I ((mount how source target, a) ∷ t))
    (tmpfile-I : (content target : Bytes) → Keeps I k (bind_mount_tmpfile content target))
    (nofollow-I : (b : BindMount) → Keeps I k (bind_mount_nofollow b)) where
  require-Keeps :
      (c : Call) (e : ℕ → Failure)
      → ((a : Answer) (t : Calls) → I t → I ((c, a) ∷ t))
      → Keeps I k (require c e)
  require-Keeps c e closed t h = elim (Answer-cases (k t c)) [
    | inl (n, bytes, success) ↦ rw success (closed _ t h)
    | inr (errno, failure) ↦ rw failure (closed _ t h)
  ]

  bind_mount_all-Keeps : (bs : List BindMount) → Keeps I k (bind_mount_all bs)
  unfolding bind_mount_all
  bind_mount_all-Keeps [] t h = h
  bind_mount_all-Keeps (b ∷ bs) t h =
      then-Keeps I k (bind_mount_nofollow b k t) (λ u. bind_mount_all bs) (nofollow-I b t h)
        λ u. bind_mount_all-Keeps bs

  pub setup_mount_namespace-Keeps :
      (binds : List BindMount) → Keeps I k (setup_mount_namespace binds)
  unfolding setup_mount_namespace
  setup_mount_namespace-Keeps binds t h =
      then-Keeps I k (require (unshare (new_ns ∷ [])) (system "unshare(CLONE_NEWNS)") k t) _
        (require-Keeps _ _ (unshare-I _) t h)
        λ u t1 h1.
          then-Keeps I k
            (require (mount rec_private [] (codes "/")) (system "make root mount private") k t1) _
            (require-Keeps _ _ (mount-I _ _ _) t1 h1)
            λ u t2 h2.
              then-Keeps I k (bind_mount_tmpfile resolv_conf (codes "/etc/resolv.conf") k t2) _
                (tmpfile-I _ _ t2 h2)
                λ u t3 h3.
                  then-Keeps I k
                    (bind_mount_tmpfile (codes "hosts: files dns\n") (codes "/etc/nsswitch.conf") k
                      t3)
                    _ (tmpfile-I _ _ t3 h3)
                    λ u t4 h4.
                      then-Keeps I k (bind_mount_all binds k t4)
                        (λ u. ignore (mount tmpfs (codes "tmpfs") (codes "/etc/ssh/ssh_config.d")))
                        (bind_mount_all-Keeps binds t4 h4) λ u t5 h5. mount-I _ _ _ _ t5 h5
