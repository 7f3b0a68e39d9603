-- ===== src/Startup/Maps.antt =====
-- src/main.rs: which calls have succeeded, and the maps of user and group.
use nsproxy_rs.Base.{ℕ, ◌≡◌, refl, [], ◌∷◌, Bytes, ◌⊎◌, inl, inr}
use nsproxy_rs.Base.Text.{codes}
use nsproxy_rs.Sys.{
  Answer, done, failed, Answer-cases, Kernel, Post, Post-bind, Post-weaken, require, attempt,
}
use nsproxy_rs.Namespace.{Call, Calls, Failure, open_file, write_all, getuid, getgid}
use nsproxy_rs.Namespace.Net.{write_id_maps, proc_write, proc_path, id_map}

-- The call has been made and has returned `n`.
unfoldable pub Did : Call → ℕ → Calls → Type 0
Did c n [] = ⊥
Did c n ((d, done m bytes) ∷ t) = ((d ≡ c) × (m ≡ n)) ⊎ Did c n t
Did c n ((d, failed e) ∷ t) = Did c n t

abbrev pub Done : Call → Calls → Type 0
Done c t = (n : ℕ) × Did c n t

-- What no further call can undo.
abbrev pub Lasting : (Calls → Type 0) → Type 0
Lasting I = (e : Call × Answer) (t : Calls) → I t → I (e ∷ t)

pub Did-Lasting : (c : Call) (n : ℕ) → Lasting (Did c n)
unfolding Did
Did-Lasting c n (d, done m bytes) t h = inr h
Did-Lasting c n (d, failed e) t h = h

abbrev pub Done-Lasting : (c : Call) → Lasting (Done c)
Done-Lasting c e t (n, h) = (n, Did-Lasting c n e t h)

-- The file has been opened and the text written to it.
abbrev pub Wrote : Bytes → Bytes → Calls → Type 0
Wrote path content t = (f : ℕ) × Did (open_file path) f t × Done (write_all f content) t

module _ (k : Kernel Call) where
  pub attempt-Did :
      (I : Calls → Type 0) (c : Call) (kept : (a : Answer) (t : Calls) → I t → I ((c, a) ∷ t))
      (e : ℕ → Failure) (t : Calls)
      → I t
      → Post (λ n t'. Did c n t' × I t') I (attempt c e k t)
  unfolding Did
  attempt-Did I c kept e t h = elim (Answer-cases (k t c)) [
    | inl (n, bytes, success) ↦ rw success (inl (refl, refl), kept _ t h)
    | inr (errno, failure) ↦ rw failure (kept _ t h)
  ]

  pub require-Done :
      (I : Calls → Type 0) (c : Call) (kept : (a : Answer) (t : Calls) → I t → I ((c, a) ∷ t))
      (e : ℕ → Failure) (t : Calls)
      → I t
      → Post (λ u t'. Done c t' × I t') I (require c e k t)
  unfolding Did
  require-Done I c kept e t h = elim (Answer-cases (k t c)) [
    | inl (n, bytes, success) ↦ rw success ((n, inl (refl, refl)), kept _ t h)
    | inr (errno, failure) ↦ rw failure (kept _ t h)
  ]

  proc_write-Wrote :
      (I : Calls → Type 0) (lasting : Lasting I) (path content : Bytes) (t : Calls)
      → I t
      → Post (λ u t'. Wrote path content t' × I t') I (proc_write path content k t)
  unfolding proc_write Did
  proc_write-Wrote I lasting path content t h = elim (Answer-cases (k t (open_file path))) [
    | inl (f, bytes, opened) ↦ rw opened (
        let t1 : Calls = (open_file path, done f bytes) ∷ t in
        elim (Answer-cases (k t1 (write_all f content))) [
          | inl (n, out, success) ↦ rw success (
              let opened_before : Did (open_file path) f t1 = inl (refl, refl) in
              (
                (
                  f,
                  Did-Lasting (open_file path) f _ ((write_all f content, done n out) ∷ t1) (
                      Did-Lasting (open_file path) f (write_all f content, done n out) t1
                        opened_before),
                  (
                    n,
                    Did-Lasting (write_all f content) n _ ((write_all f content, done n out) ∷ t1)
                        (inl (refl, refl)),
                  ),
                ),
                lasting _ _ (lasting _ _ (lasting _ t h)),
              ))
          | inr (errno, failure) ↦ rw failure (lasting _ _ (lasting _ _ (lasting _ t h)))
        ])
    | inr (errno, failure) ↦ rw failure (lasting _ t h)
  ]

-- The maps of user and group are written, each from the id that the system gave.
pub record MapsWritten (child : ℕ) (t : Calls) : Type 0 where
  pub uid : ℕ
  pub gid : ℕ
  pub is_uid : Did getuid uid t
  pub is_gid : Did getgid gid t
  pub wrote_uid : Wrote (proc_path child (codes "uid_map")) (id_map uid) t
  pub wrote_gid : Wrote (proc_path child (codes "gid_map")) (id_map gid) t

pub Wrote-Lasting : (path content : Bytes) → Lasting (Wrote path content)
Wrote-Lasting path content e t (f, opened, (n, written)) = (
  f,
  Did-Lasting (open_file path) f e t opened,
  (n, Did-Lasting (write_all f content) n e t written),
)

pub MapsWritten-Lasting : (child : ℕ) → Lasting (MapsWritten child)
MapsWritten-Lasting child e t m = record {
  uid = m.uid;
  gid = m.gid;
  is_uid = Did-Lasting getuid m.uid e t m.is_uid;
  is_gid = Did-Lasting getgid m.gid e t m.is_gid;
  wrote_uid = Wrote-Lasting _ _ e t m.wrote_uid;
  wrote_gid = Wrote-Lasting _ _ e t m.wrote_gid;
}

module _ (k : Kernel Call) where
  pub write_id_maps-Wrote :
      (I : Calls → Type 0) (lasting : Lasting I) (child uid gid : ℕ) (t : Calls)
      → I t
      → Post
          (λ u t'.
            Wrote (proc_path child (codes "gid_map")) (id_map gid) t'
            × (Wrote (proc_path child (codes "uid_map")) (id_map uid) t' × I t'))
          (λ t'. Unit)
          (write_id_maps child uid gid k t)
  unfolding write_id_maps
  write_id_maps-Wrote I lasting child uid gid t h =
      let One : Calls → Type 0 =
        λ t'. Wrote (proc_path child (codes "setgroups")) (codes "deny") t' × I t' in
      let Two : Calls → Type 0 =
        λ t'. Wrote (proc_path child (codes "uid_map")) (id_map uid) t' × I t' in
      let F : Calls → Type 0 = λ t'. Unit in
      let P : Calls → Type 0 =
        λ t'. Wrote (proc_path child (codes "gid_map")) (id_map gid) t' × Two t' in
      Post-bind (λ u. P) F (λ u. One) k
        (proc_write (proc_path child (codes "setgroups")) (codes "deny") k t) _
        (Post-weaken (λ u. One) I F _ (λ t' i. tt) (proc_write-Wrote k I lasting _ _ t h))
        λ u t1 h1.
          Post-bind (λ u. P) F (λ u. Two) k
            (proc_write (proc_path child (codes "uid_map")) (id_map uid) k t1) _
            (Post-weaken (λ u. Two) I F _ (λ t' i. tt) (proc_write-Wrote k I lasting _ _ t1 h1.1))
            λ u t2 h2.
              Post-weaken (λ u. P) Two F _ (λ t' i. tt)
                (proc_write-Wrote k Two
                  (λ e t' both. (Wrote-Lasting _ _ e t' both.0, lasting e t' both.1)) _ _ t2 h2)
