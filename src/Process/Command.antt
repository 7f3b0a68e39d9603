-- ===== src/Process/Command.antt =====
-- src/process.rs: the start of the command. A fork gives 0 in the new process and its id in the other;
-- a run is that of one of the two.
pub mod Runs
use nsproxy_rs.Base.{
  ℕ, zero, suc, Bool, true, false, ◌||◌, List, [], ◌∷◌, Option, none, some, Bytes, Result, ok, err,
  if◌then◌else◌,
}
use nsproxy_rs.Base.Text.{contains}
use nsproxy_rs.Sys.{Sys, Trace, ◌>>=◌, ◌>>◌, pure, bail, attempt, require}
use nsproxy_rs.Process.{Failure, subreaper, signal_mask, fork_command, exec, no_command, nul_byte}
use nsproxy_rs.Process.Reaper.{
  Call, Calls, set_child_subreaper, block, fork, restore_mask, execvp, sigchld, State, Round,
  Waited, Outcome, wait_for_command_tree,
}

-- How a run ends: with the outcome of the reaper, as the command, or with an exit code.
pub data Ending : Type 0 where
  reaped : Outcome → Ending
  replaced : Ending
  exits : ℕ → Ending

has_nul : List Bytes → Bool
has_nul [] = false
has_nul (arg ∷ args) = contains 0 arg || has_nul args

-- It returns only if it fails; otherwise the process is another program.
unfoldable pub exec_command : List Bytes → Sys Call Failure (Unit {0})
unfolding has_nul contains
exec_command [] = bail no_command
exec_command (prog ∷ args) =
    if has_nul (prog ∷ args) then bail nul_byte else require (execvp (prog ∷ args)) exec

ended : Result Failure (Unit {0}) → Ending
ended (ok u) = replaced
ended (err e) = exits 1

-- The new process: an error is printed and ends it.
or_exit : Sys Call Failure (Unit {0}) → Sys Call Failure Ending
unfolding ended
or_exit m k t = (ok (ended (m k t).0), (m k t).1)

abbrev pub managed : List ℕ
managed = sigchld ∷ 15 ∷ 2 ∷ 1 ∷ []

abbrev pub fresh : State
fresh = record { command_exit_code = none; termination = none }

abbrev map_reaped : Sys Call Failure Outcome → Sys Call Failure Ending
map_reaped m = m >>= λ o. pure (reaped o)

-- The two processes behind the fork.
after_fork : List Bytes → ℕ → List Round → List Waited → ℕ → Sys Call Failure Ending
unfolding or_exit
after_fork command self rs ws zero = do
  require restore_mask signal_mask
  or_exit (exec_command command)
after_fork command self rs ws (suc p) = map_reaped (wait_for_command_tree (suc p) self rs ws fresh)

unfoldable pub run_command_tree :
    List Bytes → ℕ → List Round → List Waited → Sys Call Failure Ending
unfolding after_fork
run_command_tree command self rs ws = do
  require set_child_subreaper subreaper
  require (block managed) signal_mask
  pid ← attempt fork fork_command
  after_fork command self rs ws pid
