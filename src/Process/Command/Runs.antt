-- ===== src/Process/Command/Runs.antt =====
-- src/process.rs: how the command is started, and what its process tree ends with.
use nsproxy_rs.Base.{
  ℕ, zero, suc, ap, ◌≤◌, ◌≡◌, refl, inl, inr, Bool-cases, List, [], ◌∷◌, length, none, some, Bytes,
  Result, ok, err, All,
}
use nsproxy_rs.Sys.{done, Answer-cases, Kernel, Post, Post-bind, pure}
use nsproxy_rs.Process.{Failure, i32_max}
use nsproxy_rs.Process.Complete.{IsReadable}
use nsproxy_rs.Process.Reaper.{
  Call, Calls, set_child_subreaper, block, fork, restore_mask, execvp, Round, Waited, exit_code,
  wait_for_command_tree,
}
use nsproxy_rs.Process.Reaper.Signals.{MaySignal}
use nsproxy_rs.Process.Reaper.ExitCode.{
  MayWait, last_status, pauses, wait_for_command_tree-exit_code,
}
use nsproxy_rs.Process.Command.{
  Ending, reaped, replaced, has_nul, exec_command, ended, or_exit, managed, fresh, after_fork,
  run_command_tree,
}

-- The calls that led to the command, all successful. The signals are SIGCHLD, SIGTERM, SIGINT and SIGHUP.
pub record IsStarted (command : List Bytes) (before after : Calls) : Type 0 where
  pub adopted : ℕ × Bytes
  pub blocked : ℕ × Bytes
  pub forked : ℕ × Bytes
  pub unblocked : ℕ × Bytes
  pub executed : ℕ × Bytes
  pub in_order :
      after
      ≡ (execvp command, done executed.0 executed.1)
        ∷ (restore_mask, done unblocked.0 unblocked.1)
        ∷ (fork, done 0 forked.1)
        ∷ (block (17 ∷ 15 ∷ 2 ∷ 1 ∷ []), done blocked.0 blocked.1)
        ∷ (set_child_subreaper, done adopted.0 adopted.1)
        ∷ before

abbrev pub Started : List Bytes → Calls → Ending → Calls → Type 0
Started command before ending after = ending ≡ replaced → IsStarted command before after

any_run : {A : Type 0} (r : Result Failure A × Calls) → Post (λ a t. Unit {0}) (λ t. Unit {0}) r
any_run (ok a, t) = tt
any_run (err e, t) = tt

-- The calls in front of the reaper succeed, and this is the process that forks.
pub record Forks (k : Kernel Call) (p : ℕ) : Type 0 where
  pub adopts : (t : Calls) → (n : ℕ) × (bytes : Bytes) × (k t set_child_subreaper ≡ done n bytes)
  pub blocks : (t : Calls) → (n : ℕ) × (bytes : Bytes) × (k t (block managed) ≡ done n bytes)
  pub forks : (t : Calls) → (bytes : Bytes) × (k t fork ≡ done (suc p) bytes)

module _ (k : Kernel Call) (self : ℕ) where
  exec_command-IsStarted :
      (command : List Bytes) (before : Calls) (a b c d : ℕ × Bytes) (t : Calls)
      → t
        ≡ (restore_mask, done d.0 d.1)
          ∷ (fork, done 0 c.1)
          ∷ (block managed, done b.0 b.1)
          ∷ (set_child_subreaper, done a.0 a.1)
          ∷ before
      → Post (Started command before) (λ t'. Unit {0}) (or_exit (exec_command command) k t)
  unfolding or_exit exec_command ended
  exec_command-IsStarted [] before a b c d t e = λ h. absurd (cc)
  exec_command-IsStarted (prog ∷ args) before a b c d t e =
      elim (Bool-cases (has_nul (prog ∷ args))) [
        | inl bad ↦ rw bad (λ h. absurd (cc))
        | inr good ↦ rw good (elim (Answer-cases (k t (execvp (prog ∷ args)))) [
          | inl (n, bytes, success) ↦ rw success (λ h. record {
            adopted = a;
            blocked = b;
            forked = c;
            unblocked = d;
            executed = (n, bytes);
            in_order = ap (◌∷◌ (execvp (prog ∷ args), done n bytes)) e;
          })
          | inr (errno, failure) ↦ rw failure (λ h. absurd (cc))
        ])
      ]

  -- The calls up to the fork.
  abbrev forking : Calls → ℕ × Bytes → ℕ × Bytes → ℕ → Bytes → Calls
  forking before a b pid bytes =
      (fork, done pid bytes)
      ∷ (block managed, done b.0 b.1)
      ∷ (set_child_subreaper, done a.0 a.1)
      ∷ before

  after_fork-IsStarted :
      (command : List Bytes) (rs : List Round) (ws : List Waited) (before : Calls) (a b : ℕ × Bytes)
      (pid : ℕ) (bytes : Bytes)
      → Post
          (Started command before)
          (λ t'. Unit {0})
          (after_fork command self rs ws pid k (forking before a b pid bytes))
  unfolding after_fork
  after_fork-IsStarted command rs ws before a b zero bytes =
      let t = forking before a b 0 bytes in
      elim (Answer-cases (k t restore_mask)) [
        | inl (n, answer, success) ↦ rw success (
            exec_command-IsStarted command before a b (0, bytes) (n, answer)
              ((restore_mask, done n answer) ∷ t) refl)
        | inr (errno, failure) ↦ rw failure tt
      ]
  after_fork-IsStarted command rs ws before a b (suc p) bytes =
      let run =
        wait_for_command_tree (suc p) self rs ws fresh k (forking before a b (suc p) bytes) in
      Post-bind (Started command before) (λ t'. Unit {0}) (λ o t'. Unit {0}) k run
        (λ o. pure (reaped o)) (any_run run) (λ o t' u h. absurd (cc))

  -- A process that becomes the command was forked with SIGCHLD, SIGTERM, SIGINT and SIGHUP blocked, below the subreaper, has
  -- its first signal mask again, and runs exactly the command.
  pub run_command_tree-IsStarted :
      (command : List Bytes) (rs : List Round) (ws : List Waited) (t : Calls)
      → Post (Started command t) (λ t'. Unit {0}) (run_command_tree command self rs ws k t)
  unfolding run_command_tree
  run_command_tree-IsStarted command rs ws t = elim (Answer-cases (k t set_child_subreaper)) [
    | inr (e, failure) ↦ rw failure tt
    | inl (n1, b1, adopted) ↦
        let t1 : Calls = (set_child_subreaper, done n1 b1) ∷ t in
        rw adopted (elim (Answer-cases (k t1 (block managed))) [
          | inr (e, failure) ↦ rw failure tt
          | inl (n2, b2, blocked) ↦
              let t2 : Calls = (block managed, done n2 b2) ∷ t1 in
              rw blocked (elim (Answer-cases (k t2 fork)) [
                | inr (e, failure) ↦ rw failure tt
                | inl (pid, b3, forked) ↦
                    rw forked (after_fork-IsStarted command rs ws t (n1, b1) (n2, b2) pid b3)
              ])
        ])
  ]

  -- In the other process, with as many rounds as it has to wait and no call refused, the result is
  -- the last status of the command, whatever else ends in the tree and whichever signals arrive.
  pub run_command_tree-exit_code :
      (may : MaySignal k) (received : MayWait k) (command : List Bytes) (p status : ℕ)
      (rs : List Round) (ws : List Waited) (t : Calls)
      → self ≤ i32_max
      → Forks k p
      → All (λ r. IsReadable r.fs self) rs
      → pauses ws ≤ length rs
      → last_status (suc p) none ws ≡ some (some status)
      → Post
          (λ ending t'. ending ≡ reaped (exit_code status))
          (λ t'. ⊥)
          (run_command_tree command self rs ws k t)
  unfolding run_command_tree after_fork
  run_command_tree-exit_code may received command p status rs ws t pid f readable enough last =
      let (n1, b1, e1) = f.adopts t in
      let t1 : Calls = (set_child_subreaper, done n1 b1) ∷ t in
      let (n2, b2, e2) = f.blocks t1 in
      let t2 : Calls = (block managed, done n2 b2) ∷ t1 in
      let (b3, e3) = f.forks t2 in
      let t3 : Calls = (fork, done (suc p) b3) ∷ t2 in
      rw (e1, e2, e3)
        (Post-bind (λ ending t'. ending ≡ reaped (exit_code status)) (λ t'. ⊥)
          (λ o t'. o ≡ exit_code status) k (wait_for_command_tree (suc p) self rs ws fresh k t3)
          (λ o. pure (reaped o))
          (wait_for_command_tree-exit_code k may received self pid (suc p) status rs ws fresh t3
            readable enough last)
          (λ o t' h. ap reaped h))
