-- ===== src/Process/Reaper/ExitCode.antt =====
-- src/process.rs: the exit code of the command, although other processes of the tree end as well.
use nsproxy_rs.Base.{
  ℕ, suc, ◌+◌, ◌≤◌, ◌≡◌, refl, sym, subst, ◌∙◌, ◌⊎◌, inl, inr, Bool-cases, List, [], ◌∷◌, length,
  Option, none, some, ◌==◌, le→leb, if◌then◌else◌, All, arith,
}
use nsproxy_rs.Sys.{Answer, done, failed, Kernel, Sys, Post, Post-bind}
use nsproxy_rs.Process.{Failure, ProcFs, i32_max}
use nsproxy_rs.Process.Complete.{IsReadable}
use nsproxy_rs.Process.Reaper.{
  Call, Calls, sigtimedwait, eintr, eagain, echild, sigchld, signal_descendants, State, press,
  after_wait, Round, wait_round, Outcome, exit_code, wait_for_command_tree, resume, reap, note,
  Waited, exited, signaled, still_alive, other_status, wait_failed, Reaped, alive, finished, broken,
  starved, escalated, exit_with,
}
use nsproxy_rs.Process.Reaper.Signals.{MaySignal, signal_descendants-kills}

-- The last status of the command among the changes of state up to the end of the tree; `none` if
-- the tree does not end, or an error comes first.
unfoldable pub last_status : ℕ → Option ℕ → List Waited → Option (Option ℕ)
last_status command code [] = none
last_status command code (exited pid status ∷ ws) =
    last_status command (if pid == command then some status else code) ws
last_status command code (signaled pid signal ∷ ws) =
    last_status command (if pid == command then some (128 + signal) else code) ws
last_status command code (still_alive ∷ ws) = last_status command code ws
last_status command code (other_status ∷ ws) = last_status command code ws
last_status command code (wait_failed e ∷ ws) =
    let rest = last_status command code ws in
    if e == eintr then rest else if e == echild then some code else none

-- How often the loop has to wait for a signal.
unfoldable pub pauses : List Waited → ℕ
pauses [] = 0
pauses (still_alive ∷ ws) = suc (pauses ws)
pauses (_ ∷ ws) = pauses ws

status_of : ℕ → Reaped → Option (Option ℕ)
unfolding last_status
status_of command (alive code rest) = last_status command code rest
status_of command (finished code) = some code
status_of command _ = none

last_status-reap :
    (command : ℕ) (code : Option ℕ) (ws : List Waited)
    → last_status command code ws ≡ status_of command (reap command code ws)
unfolding last_status reap status_of
last_status-reap command code [] = refl
last_status-reap command code (exited pid status ∷ ws) =
    last_status-reap command (note (pid == command) status code) ws
last_status-reap command code (signaled pid signal ∷ ws) =
    last_status-reap command (note (pid == command) (128 + signal) code) ws
last_status-reap command code (still_alive ∷ ws) = refl
last_status-reap command code (other_status ∷ ws) = last_status-reap command code ws
last_status-reap command code (wait_failed e ∷ ws) =
    ground (arith, last_status-reap command code ws)

pauses_of : Reaped → ℕ
unfolding pauses
pauses_of (alive code rest) = suc (pauses rest)
pauses_of _ = 0

pauses-reap :
    (command : ℕ) (code : Option ℕ) (ws : List Waited)
    → pauses_of (reap command code ws) ≤ pauses ws
unfolding pauses reap pauses_of
pauses-reap command code [] = omega arith
pauses-reap command code (exited pid status ∷ ws) =
    pauses-reap command (note (pid == command) status code) ws
pauses-reap command code (signaled pid signal ∷ ws) =
    pauses-reap command (note (pid == command) (128 + signal) code) ws
pauses-reap command code (still_alive ∷ ws) = omega arith
pauses-reap command code (other_status ∷ ws) = pauses-reap command code ws
pauses-reap command code (wait_failed e ∷ ws) = ground (arith, pauses-reap command code ws)

alive-pauses :
    (command : ℕ) (code code' : Option ℕ) (ws rest : List Waited)
    → reap command code ws ≡ alive code' rest
    → suc (pauses rest) ≤ pauses ws
unfolding pauses_of
alive-pauses command code code' ws rest e =
    subst (λ r. pauses_of r ≤ pauses ws) e (pauses-reap command code ws)

alive-status :
    (command status : ℕ) (code code' : Option ℕ) (ws rest : List Waited)
    → reap command code ws ≡ alive code' rest
    → last_status command code ws ≡ some (some status)
    → last_status command code' rest ≡ some (some status)
unfolding status_of
alive-status command status code code' ws rest e h =
    subst (λ r. status_of command r ≡ some (some status)) e
      (sym (last_status-reap command code ws) ∙ h)

-- A wait for a signal is interrupted, times out or gives one of the signals of the system.
abbrev pub IsReceived : Answer → Type 0
IsReceived (failed e) = (e ≡ eintr) ⊎ (e ≡ eagain)
IsReceived (done signal bytes) = (1 ≤ signal) × (signal ≤ 31)

abbrev pub MayWait : Kernel Call → Type 0
MayWait k = (t : Calls) (timeout : Option ℕ) → IsReceived (k t (sigtimedwait timeout))

module _ (k : Kernel Call) (may : MaySignal k) (received : MayWait k) (self : ℕ)
    (pid : self ≤ i32_max) where
  after_wait-code :
      (later : ℕ) (s : State) (answer : Answer) (t : Calls)
      → IsReceived answer
      → Post
          (λ s' t'. s'.command_exit_code ≡ s.command_exit_code)
          (λ t'. ⊥)
          (after_wait later s answer k t)
  unfolding after_wait
  after_wait-code later s (failed e) t (inl q) = rw q refl
  after_wait-code later s (failed e) t (inr q) = rw q refl
  after_wait-code later s (done signal bytes) t (low, high) =
      rw (le→leb 1 signal low, le→leb signal 31 high)
        (elim (Bool-cases (signal == sigchld)) [
          | inl child ↦ rw child refl
          | inr other ↦ rw other refl
        ])

  press_returns :
      (fs : ProcFs) (now : ℕ) (termination : Option (ℕ × ℕ)) (t : Calls)
      → IsReadable fs self
      → Post (λ timeout t'. Unit {0}) (λ t'. ⊥) (press fs self now termination k t)
  unfolding press
  press_returns fs now none t readable = tt
  press_returns fs now (some (signal, deadline)) t readable =
      let (out, complete, sent) =
        signal_descendants-kills k may fs self (escalated now (signal, deadline)) t pid readable in
      Post-bind (λ timeout t'. Unit {0}) (λ t'. ⊥) _ k
        (signal_descendants fs self (escalated now (signal, deadline)) k t) _ sent (λ u t' h. tt)

  wait_round-code :
      (r : Round) (s : State) (t : Calls)
      → IsReadable r.fs self
      → Post
          (λ s' t'. s'.command_exit_code ≡ s.command_exit_code)
          (λ t'. ⊥)
          (wait_round self r s k t)
  unfolding wait_round
  wait_round-code r s t readable =
      Post-bind (λ s' t'. s'.command_exit_code ≡ s.command_exit_code) (λ t'. ⊥)
        (λ timeout t'. Unit {0}) k (press r.fs self r.now s.termination k t) _
        (press_returns r.fs r.now s.termination t readable)
        λ timeout t1 u.
          after_wait-code r.later s (k t1 (sigtimedwait timeout))
            ((sigtimedwait timeout, k t1 (sigtimedwait timeout)) ∷ t1) (received t1 timeout)

  resume-exit_code :
      (round : State → List Waited → Sys Call Failure Outcome) (s : State) (r : Reaped) (t : Calls)
      (command status : ℕ)
      → status_of command r ≡ some (some status)
      → ((code : Option ℕ) (rest : List Waited)
          → r ≡ alive code rest
          → Post
              (λ o t'. o ≡ exit_code status)
              (λ t'. ⊥)
              (round (record s { command_exit_code = code }) rest k t))
      → Post (λ o t'. o ≡ exit_code status) (λ t'. ⊥) (resume round s r k t)
  unfolding resume exit_with status_of
  resume-exit_code round s (alive code rest) t command status h next = next code rest refl
  resume-exit_code round s (finished none) t command status h next = cc
  resume-exit_code round s (finished (some code)) t command status h next = ground arith
  resume-exit_code round s (broken e) t command status h next = cc
  resume-exit_code round s (starved code) t command status h next = cc

  -- With as many rounds as the loop has to wait, and no call refused, it ends with the last status of
  -- the command, whatever else ends in the tree and whichever signals arrive.
  pub wait_for_command_tree-exit_code :
      (command status : ℕ) (rs : List Round) (ws : List Waited) (s : State) (t : Calls)
      → All (λ r. IsReadable r.fs self) rs
      → pauses ws ≤ length rs
      → last_status command s.command_exit_code ws ≡ some (some status)
      → Post
          (λ o t'. o ≡ exit_code status)
          (λ t'. ⊥)
          (wait_for_command_tree command self rs ws s k t)
  unfolding wait_for_command_tree
  wait_for_command_tree-exit_code command status [] ws s t readable enough h =
      let reaped = reap command s.command_exit_code ws in
      resume-exit_code _ s reaped t command status
        (sym (last_status-reap command s.command_exit_code ws) ∙ h)
        (λ code rest e.
          let few = alive-pauses command s.command_exit_code code ws rest e in absurd (omega arith))
  wait_for_command_tree-exit_code command status (r ∷ rs) ws s t readable enough h =
      let reaped = reap command s.command_exit_code ws in
      let same = sym (last_status-reap command s.command_exit_code ws) ∙ h in
      resume-exit_code _ s reaped t command status same (λ code rest e.
        let s1 : State = record s { command_exit_code = code } in
        Post-bind (λ o t'. o ≡ exit_code status) (λ t'. ⊥) (λ s' t'. s'.command_exit_code ≡ code) k
          (wait_round self r s1 k t) (wait_for_command_tree command self rs rest)
          (wait_round-code r s1 t readable.0)
          λ s' t' c.
            wait_for_command_tree-exit_code command status rs rest s' t' readable.1
              (let few = alive-pauses command s.command_exit_code code ws rest e in omega arith)
              (subst (λ x. last_status command x rest ≡ some (some status)) (sym c)
                (alive-status command status s.command_exit_code code ws rest e h)))
