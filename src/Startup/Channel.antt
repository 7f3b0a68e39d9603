-- ===== src/Startup/Channel.antt =====
-- src/main.rs: what has passed over the set-up channel, and that the functions of the namespaces
-- leave it alone.
use nsproxy_rs.Base.{
  ℕ, ◌≡◌, Bool, true, false, List, [], ◌∷◌, Bytes, ◌==◌, if◌then◌else◌, Bool-cases, inl, inr, arith,
}
use nsproxy_rs.Base.Text.{contains, codes}
use nsproxy_rs.Sys.{Answer, done, failed, Kernel, Post, Keeps}
use nsproxy_rs.Namespace.{
  Call, Calls, read_byte, write, send_fd, recv_fd, run_command_tree, mkstemp,
}
use nsproxy_rs.Namespace.Net.{create_namespace, write_id_maps, bringup_loopback, create_tun}
use nsproxy_rs.Namespace.Mounts.{
  BindMount, bind_mount_tmpfile, bind_mount_nofollow, setup_mount_namespace, with_temp,
}
use nsproxy_rs.Namespace.Mounts.Steps.{setup_mount_namespace-Keeps}
use nsproxy_rs.Startup.{first_byte}

pub data Message : Type 0 where
  byte : ℕ → Message
  tun_descriptor : Message

-- The messages written to the channel, the last one first.
unfoldable pub sent : Calls → List Message
sent [] = []
sent ((write sock bytes, done n out) ∷ t) = byte (first_byte bytes) ∷ sent t
sent ((send_fd sock fd, done n out) ∷ t) = tun_descriptor ∷ sent t
sent (_ ∷ t) = sent t

-- The messages taken from the channel, the last one first.
unfoldable pub received : Calls → List Message
received [] = []
received ((read_byte sock, done n bytes) ∷ t) =
    if n == 1 then byte (first_byte bytes) ∷ received t else received t
received ((recv_fd sock, done n out) ∷ t) = tun_descriptor ∷ received t
received (_ ∷ t) = received t

-- The command has been run.
unfoldable pub launched : Calls → Bool
launched [] = false
launched ((run_command_tree command, answer) ∷ t) = true
launched (_ ∷ t) = launched t

pub record Chan (s r : List Message) (t : Calls) : Type 0 where
  pub quiet : launched t ≡ false
  pub was_sent : sent t ≡ s
  pub was_received : received t ≡ r

module _ (k : Kernel Call) {s r : List Message} where
  pub create_namespace-Chan : Keeps (Chan s r) k create_namespace
  unfolding create_namespace sent received launched
  create_namespace-Chan t h = ground arith

  pub bringup_loopback-Chan : Keeps (Chan s r) k bringup_loopback
  unfolding bringup_loopback sent received launched
  bringup_loopback-Chan t h = ground arith

  pub create_tun-Chan : Keeps (Chan s r) k create_tun
  unfolding create_tun sent received launched
  create_tun-Chan t h = ground arith

  pub write_id_maps-Chan : (child uid gid : ℕ) → Keeps (Chan s r) k (write_id_maps child uid gid)
  unfolding write_id_maps sent received launched
  write_id_maps-Chan child uid gid t h = ground arith

  with_temp-Chan :
      (content target : Bytes) (answer : Answer) (t : Calls)
      → Chan s r t
      → Post
          (λ u. Chan s r)
          (Chan s r)
          (with_temp content target answer k ((mkstemp (codes "/tmp/nsproxy-XXXXXX"), answer) ∷ t))
  unfolding with_temp sent received launched
  with_temp-Chan content target (done fd path) t h = ground arith
  with_temp-Chan content target (failed errno) t h = ground arith

  bind_mount_tmpfile-Chan :
      (content target : Bytes) → Keeps (Chan s r) k (bind_mount_tmpfile content target)
  unfolding bind_mount_tmpfile
  bind_mount_tmpfile-Chan content target t h = with_temp-Chan content target _ t h

  bind_mount_nofollow-Chan : (b : BindMount) → Keeps (Chan s r) k (bind_mount_nofollow b)
  unfolding bind_mount_nofollow sent received launched
  bind_mount_nofollow-Chan b t h = elim (Bool-cases (contains 0 b.source)) [
    | inl bad ↦ rw bad h
    | inr good ↦ rw good (elim (Bool-cases (contains 0 b.target)) [
      | inl bad ↦ rw bad h
      | inr fine ↦ rw fine (ground arith)
    ])
  ]

  pub setup_mount_namespace-Chan :
      (binds : List BindMount) → Keeps (Chan s r) k (setup_mount_namespace binds)
  unfolding sent received launched
  setup_mount_namespace-Chan =
      setup_mount_namespace-Keeps k (Chan s r) (λ flags a t h. ground arith)
        (λ how source target a t h. ground arith) bind_mount_tmpfile-Chan bind_mount_nofollow-Chan
