-- ===== src/Tests/Processes.antt =====
-- A process with two children under concrete kernels.
use nsproxy_rs.Base.{
  ℕ, ◌≡◌, refl, Bool-cases, inl, inr, List, [], ◌∷◌, ◌++◌, map, none, some, ok, ◌==◌, if◌then◌else◌,
  arith,
}
use nsproxy_rs.Base.Text.{codes}
use nsproxy_rs.Std.Number.{parse_uint, parse_digits}
use nsproxy_rs.Sys.{done, failed, Kernel, Post}
use nsproxy_rs.Process.{ProcFs, found, not_found, split_whitespace}
use nsproxy_rs.Process.Children.{parse_all, listed, children_of}
use nsproxy_rs.Process.Complete.{IsReadable}
use nsproxy_rs.Process.Descendants.{IsComplete}
use nsproxy_rs.Process.Reaper.{
  Call, fork, kill, sigtimedwait, esrch, eagain, echild, signal_descendants, State, Round, Waited,
  exited, signaled, still_alive, wait_failed, exit_code, wait_for_command_tree,
}
use nsproxy_rs.Process.Command.{reaped, run_command_tree}
use nsproxy_rs.Process.Command.Runs.{
  Forks, Started, run_command_tree-exit_code, run_command_tree-IsStarted,
}
use nsproxy_rs.Process.Reaper.Signals.{kills, sent_onto, MaySignal, signal_descendants-kills}
use nsproxy_rs.Process.Reaper.Escalation.{IsKilling, wait_for_command_tree-IsKilling}
use nsproxy_rs.Process.Reaper.ExitCode.{MayWait, last_status, pauses}
use nsproxy_rs.Startup.Supervise.{
  term, hup, supervise, wait_child, event_of, child_ended, forwarded_onto, by_exit,
  supervise-forwarded,
}

-- Process 1 has one thread, which has the children 2 and 3.
abbrev family : ProcFs
family = record {
  threads = λ p. if p == 1 then found (ok 1 ∷ []) else not_found;
  children = λ p task. found (codes "2 3 ");
}

family-IsReadable : IsReadable family 1
unfolding children_of listed parse_all split_whitespace parse_uint parse_digits
family-IsReadable p d = elim (Bool-cases (p == 1)) [
  | inl e ↦ (2 ∷ 3 ∷ [], rw e refl)
  | inr e ↦ ([], rw e refl)
]

-- Process 3 is gone, no signal arrives, and a fork makes process 7.
abbrev quiet : Kernel Call
quiet t (kill pid signal) = if pid == 3 then failed esrch else done 0 []
quiet t (sigtimedwait timeout) = failed eagain
quiet t fork = done 7 []
quiet t _ = done 0 []

quiet-MaySignal : MaySignal quiet
quiet-MaySignal t pid signal e h = elim (Bool-cases (pid == 3)) [
  | inl gone ↦ ground arith
  | inr other ↦ ground arith
]

quiet-MayWait : MayWait quiet
quiet-MayWait t timeout = inr refl

signal_descendants-kills_example :
    (out : List ℕ) × IsComplete family 1 out
    × Post (λ u t. kills t ≡ sent_onto 15 out []) (λ t. ⊥) (signal_descendants family 1 15 quiet [])
unfolding kills
signal_descendants-kills_example =
    signal_descendants-kills quiet quiet-MaySignal family 1 15 [] (omega arith) family-IsReadable

abbrev late : Round
late = record { fs = family; now = 60; later = 61 }

abbrev asked : State
asked = record { command_exit_code = none; termination = some (15, 50) }

-- The command ends, then a stray process, then nothing is left.
abbrev answers : List Waited
answers = still_alive ∷ exited 7 4 ∷ signaled 2 9 ∷ wait_failed echild ∷ []

wait_for_command_tree-IsKilling_example :
    Post (λ o. IsKilling) IsKilling (wait_for_command_tree 7 1 (late ∷ []) answers asked quiet [])
unfolding IsKilling
wait_for_command_tree-IsKilling_example =
    wait_for_command_tree-IsKilling quiet 7 1 50 (late ∷ []) answers asked (omega arith, tt)
      (15, refl) [] tt

quiet-Forks : Forks quiet 6
quiet-Forks = record {
  adopts = λ t. (0, [], refl);
  blocks = λ t. (0, [], refl);
  forks = λ t. ([], refl);
}

run_command_tree-exit_code_example :
    Post
      (λ ending t. ending ≡ reaped (exit_code 4))
      (λ t. ⊥)
      (run_command_tree (codes "id" ∷ []) 1 (late ∷ []) answers quiet [])
unfolding last_status pauses
run_command_tree-exit_code_example =
    run_command_tree-exit_code quiet 1 quiet-MaySignal quiet-MayWait (codes "id" ∷ []) 6 4
      (late ∷ []) answers [] (omega arith) quiet-Forks (family-IsReadable, tt) (omega arith) refl

-- The new process of a fork.
abbrev forked : Kernel Call
forked t call = done 0 []

run_command_tree-IsStarted_example :
    Post
      (Started (codes "id" ∷ []) [])
      (λ t. Unit {0})
      (run_command_tree (codes "id" ∷ []) 1 [] [] forked [])
run_command_tree-IsStarted_example = run_command_tree-IsStarted forked 1 (codes "id" ∷ []) [] [] []

supervise-forwarded_example :
    Post
      (λ result t. (result ≡ some 4) × (kills t ≡ forwarded_onto 9 (term ∷ hup ∷ []) []))
      (λ t. ⊥)
      (supervise 9
        (map event_of (term ∷ hup ∷ []) ++ child_ended (wait_child (exited 9 4 ∷ [])) ∷ [])
        quiet
        [])
unfolding wait_child kills
supervise-forwarded_example =
    supervise-forwarded quiet 9 (term ∷ hup ∷ []) (exited 9 4 ∷ []) 4 [] [] (by_exit 9 4 [])
