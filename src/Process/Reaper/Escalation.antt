-- ===== src/Process/Reaper/Escalation.antt =====
-- src/process.rs: from its deadline on, a termination kills.
use nsproxy_rs.Base.{
  ℕ, ◌≤◌, ◌≡◌, refl, inl, inr, Bool-cases, not, ◌&&◌, ◌||◌, List, [], ◌∷◌, Option, none, some, ◌==◌,
  leb, le→leb, All, Result-cases, arith,
}
use nsproxy_rs.Sys.{Answer, done, failed, Kernel, Sys, pure, ◌>>=◌, Post, Post-bind, Keeps}
use nsproxy_rs.Process.{Failure, ProcFs, descendants}
use nsproxy_rs.Process.Reaper.{
  Call, Calls, kill, sigtimedwait, eintr, eagain, sigkill, sigchld, forward_signal, signal_all,
  signal_descendants, State, press, after_wait, Round, wait_round, Outcome, wait_for_command_tree,
  reap, Waited, Reaped, resume, waiting, alive, finished, broken, starved,
}

-- Every signal sent is SIGKILL.
unfoldable pub IsKilling : Calls → Type 0
IsKilling [] = Unit
IsKilling ((kill pid signal, answer) ∷ t) = (signal ≡ sigkill) × IsKilling t
IsKilling ((_, answer) ∷ t) = IsKilling t

abbrev pub Expired : ℕ → State → Type 0
Expired deadline s = (signal : ℕ) × (s.termination ≡ some (signal, deadline))

module _ (k : Kernel Call) where
  signal_all-IsKilling : (pids : List ℕ) → Keeps IsKilling k (signal_all sigkill pids)
  unfolding signal_all forward_signal IsKilling
  signal_all-IsKilling [] t h = h
  signal_all-IsKilling (pid ∷ pids) t h =
      Post-bind (λ u. IsKilling) IsKilling (λ u. IsKilling) k (forward_signal pid sigkill k t)
        (λ u. signal_all sigkill pids) (ground arith) (λ u. signal_all-IsKilling pids)

  signal_descendants-IsKilling :
      (fs : ProcFs) (root : ℕ) → Keeps IsKilling k (signal_descendants fs root sigkill)
  unfolding signal_descendants
  signal_descendants-IsKilling fs root t h = elim (Result-cases (descendants fs root)) [
    | inl (e, f) ↦ rw f h
    | inr (out, f) ↦ rw f (signal_all-IsKilling out t h)
  ]

  press-IsKilling :
      (fs : ProcFs) (self now deadline signal : ℕ)
      → deadline ≤ now
      → Keeps IsKilling k (press fs self now (some (signal, deadline)))
  unfolding press
  press-IsKilling fs self now deadline signal late t h = rw (le→leb deadline now late) (
      Post-bind (λ u. IsKilling) IsKilling (λ u. IsKilling) k
        (signal_descendants fs self sigkill k t) _ (signal_descendants-IsKilling fs self t h)
        (λ u t' h'. h'))

  after_wait-Expired :
      (later deadline : ℕ) (s : State) (answer : Answer) (t : Calls)
      → Expired deadline s
      → IsKilling t
      → Post (λ s' t'. Expired deadline s' × IsKilling t') IsKilling (after_wait later s answer k t)
  unfolding after_wait
  after_wait-Expired later deadline s (failed e) t expired h =
      elim (Bool-cases (e == eintr || e == eagain)) [
        | inl again ↦ rw again (expired, h)
        | inr bad ↦ rw bad h
      ]
  after_wait-Expired later deadline s (done signal bytes) t expired h =
      elim (Bool-cases (not (leb 1 signal && leb signal 31))) [
        | inl bad ↦ rw bad h
        | inr valid ↦ rw valid (elim (Bool-cases (signal == sigchld)) [
          | inl child ↦ rw child (expired, h)
          | inr other ↦ rw other ((signal, rw (expired.1) refl), h)
        ])
      ]

  wait_round-Expired :
      (self deadline : ℕ) (r : Round) (s : State) (t : Calls)
      → deadline ≤ r.now
      → Expired deadline s
      → IsKilling t
      → Post (λ s' t'. Expired deadline s' × IsKilling t') IsKilling (wait_round self r s k t)
  unfolding wait_round IsKilling
  wait_round-Expired self deadline r s t late (signal, e) h =
      let pressed : Post (λ u. IsKilling) IsKilling (press r.fs self r.now s.termination k t) =
        rw e (press-IsKilling r.fs self r.now deadline signal late t h) in
      Post-bind (λ s' t'. Expired deadline s' × IsKilling t') IsKilling (λ u. IsKilling) k
        (press r.fs self r.now s.termination k t) _ pressed
        λ timeout t1 h1.
          after_wait-Expired r.later deadline s (k t1 (sigtimedwait timeout))
            ((sigtimedwait timeout, k t1 (sigtimedwait timeout)) ∷ t1) (signal, e) h1

  resume-IsKilling :
      (round : State → List Waited → Sys Call Failure Outcome) (s : State) (r : Reaped) (t : Calls)
      → ((code : Option ℕ) (rest : List Waited)
          → Post
              (λ o. IsKilling)
              IsKilling
              (round (record s { command_exit_code = code }) rest k t))
      → IsKilling t
      → Post (λ o. IsKilling) IsKilling (resume round s r k t)
  unfolding resume
  resume-IsKilling round s (alive code rest) t next h = next code rest
  resume-IsKilling round s (finished none) t next h = h
  resume-IsKilling round s (finished (some code)) t next h = h
  resume-IsKilling round s (broken e) t next h = h
  resume-IsKilling round s (starved code) t next h = h

  -- Once the deadline of a termination has passed, no signal but SIGKILL is sent: later signals do
  -- not move the deadline, and nothing else goes out in any further round.
  pub wait_for_command_tree-IsKilling :
      (command self deadline : ℕ) (rs : List Round) (ws : List Waited) (s : State)
      → All (λ r. deadline ≤ r.now) rs
      → Expired deadline s
      → Keeps IsKilling k (wait_for_command_tree command self rs ws s)
  unfolding wait_for_command_tree
  wait_for_command_tree-IsKilling command self deadline [] ws s late expired t h =
      resume-IsKilling (λ s' rest. pure (waiting s')) s (reap command s.command_exit_code ws) t
        (λ code rest. h) h
  wait_for_command_tree-IsKilling command self deadline (r ∷ rs) ws s late expired t h =
      resume-IsKilling
        (λ s' rest. wait_round self r s' >>= wait_for_command_tree command self rs rest) s
        (reap command s.command_exit_code ws) t
        (λ code rest.
          let s1 : State = record s { command_exit_code = code } in
          Post-bind (λ o. IsKilling) IsKilling (λ s' t'. Expired deadline s' × IsKilling t') k
            (wait_round self r s1 k t) (wait_for_command_tree command self rs rest)
            (wait_round-Expired self deadline r s1 t late.0 expired h)
            λ s' t' both.
              wait_for_command_tree-IsKilling command self deadline rs rest s' late.1 both.0 t'
                both.1)
        h
