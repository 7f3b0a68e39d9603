-- ===== src/Process/Reaper.antt =====
-- src/process.rs: the reaper. Each round of its loop takes what waitpid answers, the clock and what
-- /proc shows as inputs; signals sent and waited for are calls.
pub mod Signals
pub mod Escalation
pub mod ExitCode
use nsproxy_rs.Base.{
  ℕ, zero, suc, ◌+◌, ◌-◌, Bool, true, false, ◌&&◌, ◌||◌, not, List, [], ◌∷◌, Bytes, Option, none,
  some, leb, ◌==◌, if◌then◌else◌, Result, ok, err, ◌≡◌, refl, ◌⊎◌, inl, inr,
}
use nsproxy_rs.Sys.{Answer, done, failed, Sys, Trace, ◌>>=◌, ◌>>◌, pure, bail, perform}
use nsproxy_rs.Process.{
  Failure, send_signal, wait_command_tree, wait_signal, unknown_signal, no_exit_status, ProcFs,
  descendants,
}

pub data Call : Type 0 where
  kill : ℕ → ℕ → Call
  sigtimedwait : Option ℕ → Call
  -- What starts the command: its arguments, and the signals to block.
  set_child_subreaper fork restore_mask : Call
  block : List ℕ → Call
  execvp : List Bytes → Call

abbrev pub Calls : Type 0
Calls = Trace Call

-- What waitpid answers: an exit with its code, a death by a signal, no change yet, another change of
-- state, or an error.
pub data Waited : Type 0 where
  exited : ℕ → ℕ → Waited
  signaled : ℕ → ℕ → Waited
  still_alive : Waited
  other_status : Waited
  wait_failed : ℕ → Waited

abbrev pub eintr : ℕ
eintr = 4

abbrev pub eagain : ℕ
eagain = 11

abbrev pub echild : ℕ
echild = 10

abbrev pub esrch : ℕ
esrch = 3

abbrev pub sigkill : ℕ
sigkill = 9

abbrev pub sigchld : ℕ
sigchld = 17

-- 2 s and 100 ms, in nanoseconds.
abbrev pub termination_grace : ℕ
termination_grace = 2000000000

abbrev pub kill_interval : ℕ
kill_interval = 100000000

after_kill : Answer → Sys Call Failure (Unit {0})
after_kill (done n bytes) = pure tt
after_kill (failed e) = if e == esrch then pure tt else bail (send_signal e)

-- A process that is gone is no failure.
unfoldable pub forward_signal : ℕ → ℕ → Sys Call Failure (Unit {0})
unfolding after_kill
forward_signal pid signal = perform (kill pid signal) >>= after_kill

unfoldable pub signal_all : ℕ → List ℕ → Sys Call Failure (Unit {0})
signal_all signal [] = pure tt
signal_all signal (pid ∷ pids) = do forward_signal pid signal; signal_all signal pids

lift : {A : Type 0} → Result Failure A → Sys Call Failure A
lift (ok a) = pure a
lift (err e) = bail e

unfoldable pub signal_descendants : ProcFs → ℕ → ℕ → Sys Call Failure (Unit {0})
unfolding lift signal_all
signal_descendants fs root signal = lift (descendants fs root) >>= signal_all signal

-- The inner loop: all changes of state are collected. It ends with the children that are alive, or
-- with none left; an input that stops before is a loop that still runs.
pub data Reaped : Type 0 where
  alive : Option ℕ → List Waited → Reaped
  finished : Option ℕ → Reaped
  broken : ℕ → Reaped
  starved : Option ℕ → Reaped

abbrev pub note : Bool → ℕ → Option ℕ → Option ℕ
note is_command status code = if is_command then some status else code

unfoldable pub reap : ℕ → Option ℕ → List Waited → Reaped
reap command code [] = starved code
reap command code (exited pid status ∷ ws) = reap command (note (pid == command) status code) ws
reap command code (signaled pid signal ∷ ws) =
    reap command (note (pid == command) (128 + signal) code) ws
reap command code (still_alive ∷ ws) = alive code ws
reap command code (other_status ∷ ws) = reap command code ws
reap command code (wait_failed e ∷ ws) =
    let rest = reap command code ws in
    if e == eintr then rest else if e == echild then finished code else broken e

-- The signal that is forwarded and the deadline, once a termination has been asked for.
pub record State : Type 0 where
  pub command_exit_code : Option ℕ
  pub termination : Option (ℕ × ℕ)

-- The signal sent in a round that starts at `now`, and the time to wait after it.
abbrev pub escalated : ℕ → ℕ × ℕ → ℕ
escalated now (signal, deadline) = if leb deadline now then sigkill else signal

abbrev pub patience : ℕ → ℕ × ℕ → ℕ
patience now (signal, deadline) = if leb deadline now then kill_interval else deadline - now

unfoldable pub press : ProcFs → ℕ → ℕ → Option (ℕ × ℕ) → Sys Call Failure (Option ℕ)
press fs self now none = pure none
press fs self now (some t) = do
  signal_descendants fs self (escalated now t)
  pure (some (patience now t))

-- The first deadline stays; the last signal is forwarded.
unfoldable pub ask : ℕ → ℕ → Option (ℕ × ℕ) → Option (ℕ × ℕ)
ask later signal none = some (signal, later + termination_grace)
ask later signal (some (old, deadline)) = some (signal, deadline)

after_wait : ℕ → State → Answer → Sys Call Failure State
unfolding ask
after_wait later s (failed e) = if e == eintr || e == eagain then pure s else bail (wait_signal e)
after_wait later s (done signal bytes) =
    if not (leb 1 signal && leb signal 31)
    then bail unknown_signal
    else if signal == sigchld
    then pure s
    else pure (record s { termination = ask later signal s.termination })

-- One round behind the inner loop: `now` and `later` are readings of the clock.
pub record Round : Type 0 where
  pub fs : ProcFs
  pub now : ℕ
  pub later : ℕ

unfoldable pub wait_round : ℕ → Round → State → Sys Call Failure State
unfolding press after_wait
wait_round self r s = do
  timeout ← press r.fs self r.now s.termination
  received ← perform (sigtimedwait timeout)
  after_wait r.later s received

pub data Outcome : Type 0 where
  exit_code : ℕ → Outcome
  -- The inputs of the model end before the loop does.
  waiting : State → Outcome

exit_with : Option ℕ → Sys Call Failure Outcome
exit_with none = bail no_exit_status
exit_with (some code) = pure (exit_code code)

-- Behind the inner loop: the rest of the round, or the way out.
unfoldable pub resume :
    (State → List Waited → Sys Call Failure Outcome) → State → Reaped → Sys Call Failure Outcome
unfolding exit_with
resume round s (alive code rest) = round (record s { command_exit_code = code }) rest
resume round s (finished code) = exit_with code
resume round s (broken e) = bail (wait_command_tree e)
resume round s (starved code) = pure (waiting (record s { command_exit_code = code }))

unfoldable pub wait_for_command_tree :
    ℕ → ℕ → List Round → List Waited → State → Sys Call Failure Outcome
wait_for_command_tree command self [] ws s =
    resume (λ s' rest. pure (waiting s')) s (reap command s.command_exit_code ws)
wait_for_command_tree command self (r ∷ rs) ws s =
    resume (λ s' rest. wait_round self r s' >>= wait_for_command_tree command self rs rest) s
      (reap command s.command_exit_code ws)
