-- ===== src/Namespace/Mounts/Cleanup.antt =====
-- src/namespace.rs: the mounts leave no descriptor open and no temporary file behind.
use nsproxy_rs.Base.{
  ℕ, ◌≡◌, subst, sym, List, ◌∷◌, Bytes, Bool-cases, inl, inr, bytes_beq_refl, arith,
}
use nsproxy_rs.Base.Text.{contains, codes, is_utf8}
use nsproxy_rs.Sys.{Answer, done, failed, Kernel, Post, Keeps}
use nsproxy_rs.Namespace.{
  Call, Calls, Failure, mkstemp, unlink, close, mount, bind, set_permissions, write_all, system,
}
use nsproxy_rs.Namespace.Resources.{Resource, descriptor, temp_file, resources, Holds}
use nsproxy_rs.Namespace.Mounts.Steps.{setup_mount_namespace-Keeps}
use nsproxy_rs.Namespace.Mounts.{
  BindMount, bind_mount_tmpfile, bind_mount_nofollow, setup_mount_namespace, with_temp, fill,
  make_readable, mount_over, unlink_after, drop_both,
}

-- No unlink is refused.
abbrev pub Unlinks : Kernel Call → Type 0
Unlinks k =
    (t : Calls) (path : Bytes) → (n : ℕ) × (bytes : Bytes) × (k t (unlink path) ≡ done n bytes)

module _ (k : Kernel Call) (unlinks : Unlinks k) {held : List Resource} where
  unlink-Holds :
      (path : Bytes) (t : Calls)
      → Holds (temp_file path ∷ held) t
      → Holds held ((unlink path, k t (unlink path)) ∷ t)
  unfolding resources
  unlink-Holds path t h =
      let (n, bytes, e) = unlinks t path in
      subst (λ a. Holds held ((unlink path, a) ∷ t)) (sym e)
        (ground (arith, h, bytes_beq_refl path))

  drop_both-resources :
      (fd : ℕ) (path : Bytes) (e : Failure) (t : Calls)
      → Holds (descriptor fd ∷ temp_file path ∷ held) t
      → Post (λ u. Holds held) (Holds held) (drop_both fd path e k t)
  unfolding drop_both resources
  drop_both-resources fd path e t h =
      unlink-Holds path ((close fd, k t (close fd)) ∷ t) (ground (arith, h))

  unlink_after-resources :
      (path : Bytes) (e : ℕ → Failure) (answer : Answer) (t : Calls)
      → Holds (temp_file path ∷ held) t
      → Post (λ u. Holds held) (Holds held) (unlink_after path e answer k t)
  unfolding unlink_after
  unlink_after-resources path e (done n bytes) t h = unlink-Holds path t h
  unlink_after-resources path e (failed errno) t h = unlink-Holds path t h

  mount_over-resources :
      (path target : Bytes) (t : Calls)
      → Holds (temp_file path ∷ held) t
      → Post (λ u. Holds held) (Holds held) (mount_over path target k t)
  unfolding mount_over resources
  mount_over-resources path target t h = elim (Bool-cases (is_utf8 path)) [
    | inl text ↦
        rw text (unlink_after-resources path _ (k t (mount bind path target)) _ (ground (arith, h)))
    | inr other ↦ rw other (unlink-Holds path t h)
  ]

  make_readable-resources :
      (fd : ℕ) (path target : Bytes) (answer : Answer) (t : Calls)
      → Holds (descriptor fd ∷ temp_file path ∷ held) t
      → Post (λ u. Holds held) (Holds held) (make_readable fd path target answer k t)
  unfolding make_readable resources
  make_readable-resources fd path target (failed errno) t h =
      drop_both-resources fd path
        (system "make internal DNS configuration readable by all users" errno) t h
  make_readable-resources fd path target (done n bytes) t h =
      mount_over-resources path target ((close fd, k t (close fd)) ∷ t) (ground (arith, h))

  fill-resources :
      (fd : ℕ) (path target : Bytes) (answer : Answer) (t : Calls)
      → Holds (descriptor fd ∷ temp_file path ∷ held) t
      → Post (λ u. Holds held) (Holds held) (fill fd path target answer k t)
  unfolding fill resources
  fill-resources fd path target (failed errno) t h =
      drop_both-resources fd path (system "write" errno) t h
  fill-resources fd path target (done n bytes) t h =
      make_readable-resources fd path target (k t (set_permissions fd 0o644)) _ (ground (arith, h))

  with_temp-resources :
      (content target : Bytes) (answer : Answer) (t : Calls)
      → Holds held t
      → Post
          (λ u. Holds held)
          (Holds held)
          (with_temp content target answer k ((mkstemp (codes "/tmp/nsproxy-XXXXXX"), answer) ∷ t))
  unfolding with_temp resources
  with_temp-resources content target (done fd path) t h =
      let t1 : Calls = (mkstemp (codes "/tmp/nsproxy-XXXXXX"), done fd path) ∷ t in
      fill-resources fd path target (k t1 (write_all fd content)) _ (ground (arith, h))
  with_temp-resources content target (failed errno) t h = ground arith

  -- The temporary file is closed and unlinked on every way out.
  pub bind_mount_tmpfile-resources :
      (content target : Bytes) (t : Calls)
      → Holds held t
      → Post (λ u. Holds held) (Holds held) (bind_mount_tmpfile content target k t)
  unfolding bind_mount_tmpfile
  bind_mount_tmpfile-resources content target t h = with_temp-resources content target _ t h

  bind_mount_nofollow-resources :
      (b : BindMount) (t : Calls)
      → Holds held t
      → Post (λ u. Holds held) (Holds held) (bind_mount_nofollow b k t)
  unfolding bind_mount_nofollow resources
  bind_mount_nofollow-resources b t h = elim (Bool-cases (contains 0 b.source)) [
    | inl bad ↦ rw bad h
    | inr good ↦ rw good (elim (Bool-cases (contains 0 b.target)) [
      | inl bad ↦ rw bad h
      | inr fine ↦ rw fine (ground arith)
    ])
  ]

  -- Whatever other call fails, the set-up of the mounts holds no more than it did before, if no unlink
  -- is refused.
  pub setup_mount_namespace-resources :
      (binds : List BindMount) → Keeps (Holds held) k (setup_mount_namespace binds)
  unfolding resources
  setup_mount_namespace-resources =
      setup_mount_namespace-Keeps k (Holds held) (λ flags a t h. ground arith)
        (λ how source target a t h. ground arith) bind_mount_tmpfile-resources
        bind_mount_nofollow-resources
