-- ===== src/Startup/Parent.antt =====
-- src/main.rs: what the parent has done when it releases the child.
use nsproxy_rs.Base.{
  ℕ, ◌≡◌, refl, Bool, true, List, [], ◌∷◌, ◌==◌, Bool-cases, inl, inr, arith, Result,
}
use nsproxy_rs.Sys.{
  Answer, done, Answer-cases, Kernel, Post, Post-bind, Post-weaken, require, attempt, step,
}
use nsproxy_rs.Namespace.{Call, Calls, Failure, Setup, write, recv_fd, system}
use nsproxy_rs.Startup.{read_control_byte, needs_maps_of, map_ids, prepare, parent_setup}
use nsproxy_rs.Startup.Channel.{Message, byte, tun_descriptor, sent, received, launched, Chan}
use nsproxy_rs.Startup.Child.{bit, acks, read_control_byte-Chan}
use nsproxy_rs.Base.{◌++◌, ap}
use nsproxy_rs.Sys.{pure}
use nsproxy_rs.Startup.Maps.{MapsWritten}
use nsproxy_rs.Startup.Prepare.{prepare_calls, AllDone, State, prepare-State}
use nsproxy_rs.Startup.Acknowledge.{Mapped, Mapped-Lasting, map_ids-Chan}

-- What can have happened when the parent has returned. It has sent nothing, or at most the
-- acknowledgement of the maps; or its last call has sent the ready signal, and before it the maps
-- were written, if the child needs them, and every step of the start-up succeeded.
pub data Progress (child : ℕ) (t : Calls) : Type 0 where
  silent : sent t ≡ [] → Progress child t
  acknowledged :
      (maps : Bool) (front : List Message)
      → sent t ≡ acks maps
      → received t ≡ front ++ byte (bit maps) ∷ []
      → Progress child t
  released :
      (maps : Bool) (signal : Call × Answer) (before : Calls)
      → t ≡ signal ∷ before
      → received t ≡ tun_descriptor ∷ byte (bit maps) ∷ []
      → sent t ≡ byte 1 ∷ acks maps
      → sent before ≡ acks maps
      → AllDone prepare_calls before
      → (maps ≡ true → MapsWritten child before)
      → Progress child t

module _ (k : Kernel Call) (child : ℕ) where
  needs_maps-Chan :
      (b : ℕ) (t : Calls)
      → Chan [] (byte b ∷ []) t
      → Post (λ maps. Chan [] (byte (bit maps) ∷ [])) (Chan [] (byte b ∷ [])) (needs_maps_of b k t)
  unfolding needs_maps_of
  needs_maps-Chan b t h = elim (Bool-cases (b == 0)) [
    | inl zero_byte ↦ rw zero_byte (ground arith)
    | inr other ↦
        rw other
          (elim (Bool-cases (b == 1)) [ inl one ↦ rw one (ground arith) | inr bad ↦ rw bad h ])
  ]

  -- A step of the parent before the ready signal.
  then-Progress :
      {A B : Type 0} (F : Calls → Type 0) (Q : A → Calls → Type 0) (r : Result Failure A × Calls)
      (rest : A → Setup B)
      → ((t : Calls) → F t → Progress child t)
      → Post Q F r
      → ((a : A) (t : Calls) → Q a t → Post (λ b. Progress child) (Progress child) (rest a k t))
      → Post (λ b. Progress child) (Progress child) (step r k rest)
  then-Progress F Q r rest now h next =
      Post-bind (λ b. Progress child) (Progress child) Q k r rest
        (Post-weaken Q F (Progress child) r now h) next

  silent_lem : {r : List Message} (t : Calls) → Chan [] r t → Progress child t
  silent_lem t h = silent h.was_sent

  recv_fd-Chan :
      (sock : ℕ) (maps : Bool) {s r : List Message} (t : Calls)
      → Chan s r t
      → Mapped k child maps t
      → Post
          (λ fd t'. Chan s (tun_descriptor ∷ r) t' × Mapped k child maps t')
          (Chan s r)
          (attempt (recv_fd sock) (system "recv_fd") k t)
  unfolding sent received launched
  recv_fd-Chan sock maps t h m = elim (Answer-cases (k t (recv_fd sock))) [
    | inl (fd, bytes, success) ↦ rw success (ground arith, Mapped-Lasting k child maps _ t m)
    | inr (errno, failure) ↦ rw failure (ground arith)
  ]

  release-Progress :
      (sock : ℕ) (fd : ℕ) (maps : Bool) (t : Calls)
      → AllDone prepare_calls t
      → Chan (acks maps) (tun_descriptor ∷ byte (bit maps) ∷ []) t
      → Mapped k child maps t
      → Post
          (λ b. Progress child)
          (Progress child)
          (step (require (write sock (1 ∷ [])) (system "write ready signal") k t) k (λ u. pure fd))
  unfolding sent received launched
  release-Progress sock fd maps t all h m = elim (Answer-cases (k t (write sock (1 ∷ [])))) [
    | inl (n, bytes, success) ↦ rw success (
        released maps (write sock (1 ∷ []), done n bytes) t refl h.was_received
          (ap (◌∷◌ (byte 1)) h.was_sent) h.was_sent all m)
    | inr (errno, failure) ↦
        rw failure (acknowledged maps (tun_descriptor ∷ []) h.was_sent h.was_received)
  ]

  -- Wherever the parent stops, its progress is one of the three.
  pub parent_setup-Progress :
      (fuel sock : ℕ) (t : Calls)
      → Chan [] [] t
      → Post (λ tun_fd. Progress child) (Progress child) (parent_setup fuel sock child k t)
  unfolding parent_setup
  parent_setup-Progress fuel sock t h =
      then-Progress (Chan [] []) (λ b. Chan [] (byte b ∷ []))
        (read_control_byte fuel sock "unshare signal from child" k t) _ silent_lem
        (read_control_byte-Chan k fuel sock _ t h)
        λ b t1 h1.
          then-Progress (Chan [] (byte b ∷ [])) (λ maps. Chan [] (byte (bit maps) ∷ []))
            (needs_maps_of b k t1) _ silent_lem (needs_maps-Chan b t1 h1)
            λ maps t2 h2.
              let r : List Message = byte (bit maps) ∷ [] in
              let r' : List Message = tun_descriptor ∷ r in
              then-Progress (Chan [] r) (λ u t'. Chan (acks maps) r t' × Mapped k child maps t')
                (map_ids sock child maps k t2) _ silent_lem (map_ids-Chan k child sock maps t2 h2)
                λ u t3 h3.
                  then-Progress (Chan (acks maps) r)
                    (λ fd t'. Chan (acks maps) r' t' × Mapped k child maps t')
                    (attempt (recv_fd sock) (system "recv_fd") k t3) _
                    (λ t' c. acknowledged maps [] c.was_sent c.was_received)
                    (recv_fd-Chan sock maps t3 h3.0 h3.1)
                    λ fd t4 h4.
                      then-Progress (Chan (acks maps) r')
                        (λ u.
                          State k (acks maps) r' (Mapped k child maps) (Mapped-Lasting k child maps)
                            prepare_calls)
                        (prepare k t4) _
                        (λ t' c. acknowledged maps (tun_descriptor ∷ []) c.was_sent c.was_received)
                        (prepare-State k (acks maps) r' (Mapped k child maps)
                          (Mapped-Lasting k child maps) t4 h4.0 h4.1)
                        λ u t5 h5. release-Progress sock fd maps t5 h5.0 h5.1.0 h5.1.1
