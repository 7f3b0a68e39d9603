-- ===== src/Startup/Supervise.antt =====
-- src/main.rs: the parent behind the ready signal. It forwards signals to the child and takes over
-- its exit code; the event loop runs beside it until the child has ended.
use nsproxy_rs.Base.{
  ℕ, ◌+◌, ◌≡◌, refl, subst, List, [], ◌∷◌, ◌++◌, map, Option, none, some, Result, ok, err, ◌==◌,
  if◌then◌else◌, Bool-cases, inl, inr,
}
use nsproxy_rs.Sys.{Answer-cases, Sys, Kernel, Post, ◌>>◌, pure}
use nsproxy_rs.Process.{Failure, wait_command_tree}
use nsproxy_rs.Process.Reaper.{
  Call, Calls, kill, forward_signal, Waited, exited, signaled, still_alive, other_status,
  wait_failed, eintr, esrch,
}
use nsproxy_rs.Process.Reaper.Signals.{kills}
use nsproxy_rs.Startup.{sigterm, sigint, sighup}

-- The blocking task: what waitpid answers for the child until it has ended.
unfoldable pub wait_child : List Waited → Option (Result Failure ℕ)
wait_child [] = none
wait_child (exited pid code ∷ ws) = some (ok code)
wait_child (signaled pid signal ∷ ws) = some (ok (128 + signal))
wait_child (still_alive ∷ ws) = wait_child ws
wait_child (other_status ∷ ws) = wait_child ws
wait_child (wait_failed e ∷ ws) =
    let rest = wait_child ws in if e == eintr then rest else some (err (wait_command_tree e))

-- What the select gets: the end of the task, with its result or its own failure, or a signal.
pub data Selected : Type 0 where
  child_ended : Option (Result Failure ℕ) → Selected
  terminate interrupt hangup : Selected

swallow : Sys Call Failure (Unit {0}) → Sys Call Failure (Unit {0})
swallow m k t = (ok tt, (m k t).1)

abbrev pub exit_of : Option (Result Failure ℕ) → ℕ
exit_of (some (ok code)) = code
exit_of (some (err e)) = 1
exit_of none = 1

-- The exit code of the program; `none` if the events end before the child does. A signal that
-- cannot be forwarded is only reported.
unfoldable pub supervise : ℕ → List Selected → Sys Call Failure (Option ℕ)
unfolding swallow
supervise child [] = pure none
supervise child (child_ended result ∷ events) = pure (some (exit_of result))
supervise child (terminate ∷ events) = do
  swallow (forward_signal child sigterm)
  supervise child events
supervise child (interrupt ∷ events) = do
  swallow (forward_signal child sigint)
  supervise child events
supervise child (hangup ∷ events) = do swallow (forward_signal child sighup); supervise child events

pub data Signal : Type 0 where
  term int hup : Signal

abbrev pub event_of : Signal → Selected
event_of term = terminate
event_of int = interrupt
event_of hup = hangup

abbrev pub number_of : Signal → ℕ
number_of term = 15
number_of int = 2
number_of hup = 1

unfoldable pub forwarded_onto : ℕ → List Signal → List (ℕ × ℕ) → List (ℕ × ℕ)
forwarded_onto child [] sent = sent
forwarded_onto child (s ∷ ss) sent = forwarded_onto child ss ((child, number_of s) ∷ sent)

-- What waitpid answers until the child ends, with the status that a shell shows: the code of an exit,
-- or 128 and the number of the signal. Other changes and interrupted calls come before.
pub data Ends : List Waited → ℕ → Type 0 where
  by_exit : (pid code : ℕ) (ws : List Waited) → Ends (exited pid code ∷ ws) code
  by_signal : (pid signal : ℕ) (ws : List Waited) → Ends (signaled pid signal ∷ ws) (128 + signal)
  alive_first : (ws : List Waited) (code : ℕ) → Ends ws code → Ends (still_alive ∷ ws) code
  other_first : (ws : List Waited) (code : ℕ) → Ends ws code → Ends (other_status ∷ ws) code
  interrupted_first : (ws : List Waited) (code : ℕ) → Ends ws code → Ends (wait_failed 4 ∷ ws) code

wait_child-Ends : (ws : List Waited) (code : ℕ) → Ends ws code → wait_child ws ≡ some (ok code)
unfolding wait_child
wait_child-Ends _ _ (by_exit pid code ws) = refl
wait_child-Ends _ _ (by_signal pid signal ws) = refl
wait_child-Ends _ _ (alive_first ws code h) = wait_child-Ends ws code h
wait_child-Ends _ _ (other_first ws code h) = wait_child-Ends ws code h
wait_child-Ends _ _ (interrupted_first ws code h) = wait_child-Ends ws code h

module _ (k : Kernel Call) (child : ℕ) where
  swallow-kills :
      (signal : ℕ) (t : Calls)
      → kills (swallow (forward_signal child signal) k t).1 ≡ (child, signal) ∷ kills t
  unfolding swallow forward_signal kills
  swallow-kills signal t = elim (Answer-cases (k t (kill child signal))) [
    | inl (n, bytes, success) ↦ rw success refl
    | inr (e, failure) ↦
        rw failure
          (elim (Bool-cases (e == esrch)) [ inl gone ↦ rw gone refl | inr other ↦ rw other refl ])
  ]

  -- One signal in front of the others.
  shift :
      (ss : List Signal) (code signal : ℕ) (t : Calls) (r : Result Failure (Option ℕ) × Calls)
      → Post
          (λ result t'.
            (result ≡ some code)
            × (kills t'
                ≡ forwarded_onto child ss (kills (swallow (forward_signal child signal) k t).1)))
          (λ t'. ⊥)
          r
      → Post
          (λ result t'.
            (result ≡ some code) × (kills t' ≡ forwarded_onto child ss ((child, signal) ∷ kills t)))
          (λ t'. ⊥)
          r
  shift ss code signal t r h =
      subst
        (λ l.
          Post (λ result t'. (result ≡ some code) × (kills t' ≡ forwarded_onto child ss l))
            (λ t'. ⊥) r)
        (swallow-kills signal t) h

  -- The same for what the task of the child gives.
  supervise-status :
      (signals : List Signal) (ws : List Waited) (code : ℕ) (later : List Selected) (t : Calls)
      → wait_child ws ≡ some (ok code)
      → Post
          (λ result t'. (result ≡ some code) × (kills t' ≡ forwarded_onto child signals (kills t)))
          (λ t'. ⊥)
          (supervise child (map event_of signals ++ child_ended (wait_child ws) ∷ later) k t)
  unfolding supervise forwarded_onto
  supervise-status [] ws code later t h = rw h (refl, refl)
  supervise-status (term ∷ ss) ws code later t h =
      shift ss code sigterm t _
        (supervise-status ss ws code later (swallow (forward_signal child sigterm) k t).1 h)
  supervise-status (int ∷ ss) ws code later t h =
      shift ss code sigint t _
        (supervise-status ss ws code later (swallow (forward_signal child sigint) k t).1 h)
  supervise-status (hup ∷ ss) ws code later t h =
      shift ss code sighup t _
        (supervise-status ss ws code later (swallow (forward_signal child sighup) k t).1 h)

  -- However many signals arrive before the child ends, and whether or not they can be forwarded, each
  -- is sent to the child, in order, and the exit code of the program is that of the child, or 128 and
  -- the number of the signal that ended it.
  pub supervise-forwarded :
      (signals : List Signal) (ws : List Waited) (code : ℕ) (later : List Selected) (t : Calls)
      → Ends ws code
      → Post
          (λ result t'. (result ≡ some code) × (kills t' ≡ forwarded_onto child signals (kills t)))
          (λ t'. ⊥)
          (supervise child (map event_of signals ++ child_ended (wait_child ws) ∷ later) k t)
  supervise-forwarded signals ws code later t h =
      supervise-status signals ws code later t (wait_child-Ends ws code h)
