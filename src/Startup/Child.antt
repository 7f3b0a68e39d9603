-- ===== src/Startup/Child.antt =====
-- src/main.rs: what has passed over the channel when the child runs the command.
use nsproxy_rs.Base.{
  ℕ, zero, suc, ◌≡◌, Bool, true, false, List, [], ◌∷◌, Bytes, ◌==◌, if◌then◌else◌, Bool-cases, inl,
  inr, arith, Result,
}
use nsproxy_rs.Sys.{
  failed, Kernel, Post, Post-bind, Post-weaken, Answer-cases, require, attempt, step,
}
use nsproxy_rs.Namespace.{
  Call, Calls, Failure, Setup, close, read_byte, write, send_fd, run_command_tree, system,
}
use nsproxy_rs.Namespace.Net.{create_namespace, bringup_loopback, create_tun}
use nsproxy_rs.Namespace.Mounts.{BindMount, setup_mount_namespace}
use nsproxy_rs.Startup.{eintr, read_control_byte, expect_one, wait_for_maps, child_main}
use nsproxy_rs.Startup.Channel.{
  Message, byte, tun_descriptor, sent, received, launched, Chan, create_namespace-Chan,
  bringup_loopback-Chan, create_tun-Chan, setup_mount_namespace-Chan,
}
use Prim.Native.String.{String}

abbrev pub bit : Bool → ℕ
bit maps = if maps then 1 else 0

abbrev pub acks : Bool → List Message
acks maps = if maps then byte 1 ∷ [] else []

-- If the command has been run, the child has told the parent whether it needs maps and handed over
-- the TUN device, and it has read the ready signal, behind the acknowledgement of the maps.
abbrev pub RunsReleased : Calls → Type 0
RunsReleased t =
    launched t ≡ true
    → (maps : Bool) × (received t ≡ byte 1 ∷ acks maps)
      × (sent t ≡ tun_descriptor ∷ byte (bit maps) ∷ [])

abbrev IsQuiet : Calls → Type 0
IsQuiet t = launched t ≡ false

quiet_lem : {s r : List Message} (t : Calls) → Chan s r t → IsQuiet t
quiet_lem t h = h.quiet

module _ (k : Kernel Call) where
  pub read_control_byte-Chan :
      {s r : List Message} (fuel sock : ℕ) (label : String) (t : Calls)
      → Chan s r t
      → Post (λ b. Chan s (byte b ∷ r)) (Chan s r) (read_control_byte fuel sock label k t)
  unfolding read_control_byte sent received launched
  read_control_byte-Chan zero sock label t h = h
  read_control_byte-Chan {s = s} {r = r} (suc fuel) sock label t h = ground (
    arith,
    read_control_byte-Chan {s = s} {r = r} fuel sock label ((read_byte sock, failed eintr) ∷ t),
  )

  announce-Chan :
      {s r : List Message} (sock b : ℕ) (e : ℕ → Failure) (t : Calls)
      → Chan s r t
      → Post (λ u. Chan (byte b ∷ s) r) (Chan s r) (require (write sock (b ∷ [])) e k t)
  unfolding sent received launched
  announce-Chan sock b e t h = ground arith

  send_fd-Chan :
      {s r : List Message} (sock fd : ℕ) (e : ℕ → Failure) (t : Calls)
      → Chan s r t
      → Post (λ u. Chan (tun_descriptor ∷ s) r) (Chan s r) (require (send_fd sock fd) e k t)
  unfolding sent received launched
  send_fd-Chan sock fd e t h = ground arith

  expect_one-Chan :
      {s r : List Message} (e : String) (b : ℕ) (t : Calls)
      → Chan s (byte b ∷ r) t
      → Post (λ u. Chan s (byte 1 ∷ r)) (Chan s (byte b ∷ r)) (expect_one e b k t)
  unfolding expect_one
  expect_one-Chan e b t h = elim (Bool-cases (b == 1)) [
    | inl one ↦ rw one (ground arith)
    | inr other ↦ rw other h
  ]

  wait_for_maps-Chan :
      {s : List Message} (fuel sock : ℕ) (maps : Bool) (t : Calls)
      → Chan s [] t
      → Post (λ u. Chan s (acks maps)) IsQuiet (wait_for_maps fuel sock maps k t)
  unfolding wait_for_maps
  wait_for_maps-Chan fuel sock false t h = h
  wait_for_maps-Chan {s = s} fuel sock true t h =
      Post-bind (λ u. Chan s (byte 1 ∷ [])) IsQuiet (λ b. Chan s (byte b ∷ [])) k
        (read_control_byte fuel sock "maps-done acknowledgement" k t)
        (expect_one "invalid maps-done acknowledgement byte")
        (Post-weaken (λ b. Chan s (byte b ∷ [])) (Chan s []) IsQuiet _ (λ t' h'. h'.quiet)
          (read_control_byte-Chan fuel sock _ t h))
        λ b t' h'.
          Post-weaken (λ u. Chan s (byte 1 ∷ [])) (Chan s (byte b ∷ [])) IsQuiet _
            (λ t'' h''. h''.quiet) (expect_one-Chan _ b t' h')

  -- A step before the command is run.
  then-RunsReleased :
      {A B : Type 0} (F : Calls → Type 0) (Q : A → Calls → Type 0) (r : Result Failure A × Calls)
      (rest : A → Setup B)
      → ((t : Calls) → F t → IsQuiet t)
      → Post Q F r
      → ((a : A) (t : Calls) → Q a t → Post (λ b. RunsReleased) RunsReleased (rest a k t))
      → Post (λ b. RunsReleased) RunsReleased (step r k rest)
  then-RunsReleased F Q r rest quiet h next =
      Post-bind (λ b. RunsReleased) RunsReleased Q k r rest
        (Post-weaken Q F RunsReleased r (λ t f ran. absurd (cc (quiet t f))) h) next

  run_command-RunsReleased :
      (maps : Bool) (command : List Bytes) (e : ℕ → Failure) (t : Calls)
      → Chan (tun_descriptor ∷ byte (bit maps) ∷ []) (byte 1 ∷ acks maps) t
      → Post (λ code. RunsReleased) RunsReleased (attempt (run_command_tree command) e k t)
  unfolding sent received launched
  run_command-RunsReleased maps command e t h =
      elim (Answer-cases (k t (run_command_tree command))) [
        | inl (n, bytes, success) ↦ rw success (λ ran. (maps, h.was_received, h.was_sent))
        | inr (errno, failure) ↦ rw failure (λ ran. (maps, h.was_received, h.was_sent))
      ]

  close_both-Chan :
      {s r : List Message} (sock fd : ℕ) (t : Calls)
      → Chan s r t
      → let t' : Calls = (close sock, k t (close sock)) ∷ t in
        Chan s r ((close fd, k t' (close fd)) ∷ t')
  unfolding sent received launched
  close_both-Chan sock fd t h = ground arith

  -- Whatever the system answers and wherever the start-up fails, the command is run only behind the
  -- ready signal of the parent, and behind its acknowledgement if the child asked for maps.
  pub child_main-RunsReleased :
      (fuel sock : ℕ) (binds : List BindMount) (command : List Bytes) (t : Calls)
      → Chan [] [] t
      → Post (λ code. RunsReleased) RunsReleased (child_main fuel sock binds command k t)
  unfolding child_main
  child_main-RunsReleased fuel sock binds command t h =
      then-RunsReleased (Chan [] []) (λ maps. Chan [] []) (create_namespace k t) _ quiet_lem
        (create_namespace-Chan k t h)
        λ maps t1 h1.
          let s1 : List Message = byte (bit maps) ∷ [] in
          let r1 : List Message = acks maps in
          let s2 : List Message = tun_descriptor ∷ s1 in
          then-RunsReleased (Chan [] []) (λ u. Chan s1 [])
            (require (write sock (bit maps ∷ [])) (system "signal parent after unshare") k t1) _
            quiet_lem (announce-Chan sock _ _ t1 h1)
            λ u t2 h2.
              then-RunsReleased IsQuiet (λ u. Chan s1 r1) (wait_for_maps fuel sock maps k t2) _
                (λ t' q. q) (wait_for_maps-Chan fuel sock maps t2 h2)
                λ u t3 h3.
                  then-RunsReleased (Chan s1 r1) (λ u. Chan s1 r1) (bringup_loopback k t3) _
                    quiet_lem (bringup_loopback-Chan k t3 h3)
                    λ u t4 h4.
                      then-RunsReleased (Chan s1 r1) (λ u. Chan s1 r1) (create_tun k t4) _ quiet_lem
                        (create_tun-Chan k t4 h4)
                        λ tun_fd t5 h5.
                          then-RunsReleased (Chan s1 r1) (λ u. Chan s1 r1)
                            (setup_mount_namespace binds k t5) _ quiet_lem
                            (setup_mount_namespace-Chan k binds t5 h5)
                            λ u t6 h6.
                              then-RunsReleased (Chan s1 r1) (λ u. Chan s2 r1)
                                (require (send_fd sock tun_fd) (system "send_fd") k t6) _ quiet_lem
                                (send_fd-Chan sock tun_fd _ t6 h6)
                                λ u t7 h7.
                                  then-RunsReleased (Chan s2 r1) (λ b. Chan s2 (byte b ∷ r1))
                                    (read_control_byte fuel sock "ready signal" k t7) _ quiet_lem
                                    (read_control_byte-Chan fuel sock _ t7 h7)
                                    λ b t8 h8.
                                      then-RunsReleased (Chan s2 (byte b ∷ r1))
                                        (λ u. Chan s2 (byte 1 ∷ r1))
                                        (expect_one "invalid ready signal byte" b k t8) _ quiet_lem
                                        (expect_one-Chan _ b t8 h8)
                                        λ u t9 h9.
                                          run_command-RunsReleased maps command _ _
                                            (close_both-Chan sock tun_fd t9 h9)
