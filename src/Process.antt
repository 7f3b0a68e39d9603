-- ===== src/Process.antt =====
-- src/process.rs: the reaper of the command tree. What /proc shows, what waitpid answers and the
-- clock are inputs; signals sent and waited for are calls.
pub mod Children
pub mod Tree
pub mod Descendants
pub mod Pigeonhole
pub mod Complete
pub mod Reaper
pub mod Command
use nsproxy_rs.Base.{
  ℕ, zero, suc, ◌+◌, ◌-◌, ◌^◌, Bool, true, false, ◌&&◌, ◌||◌, List, [], ◌∷◌, Option, none, some,
  Bytes, leb, ◌==◌, if◌then◌else◌, Result, ok, err, ◌>>=◌, or_fail,
}
use nsproxy_rs.Std.Number.{parse_uint}
use nsproxy_rs.Sys.{Answer, done, failed, Sys, Trace, step, pure, bail, perform}

pub data Failure : Type 0 where
  list_threads list_children read_thread : ℕ → Failure
  invalid_pid : Failure
  send_signal : ℕ → Failure
  wait_command_tree wait_signal : ℕ → Failure
  unknown_signal no_exit_status : Failure
  subreaper signal_mask fork_command exec : ℕ → Failure
  no_command nul_byte : Failure
  -- The fuel of the model ran out.
  out_of_fuel : Failure

-- What reading a directory or a file of a process gives; the process may be gone.
pub data Listing (A : Type 0) : Type 0 where
  found : A → Listing A
  not_found : Listing A
  io_error : ℕ → Listing A

-- /proc at one moment: the threads of a process, each read or refused, and the text that lists the
-- children of a thread.
pub record ProcFs : Type 0 where
  pub threads : ℕ → Listing (List (Result ℕ ℕ))
  pub children : ℕ → ℕ → Listing Bytes

abbrev is_space : ℕ → Bool
is_space b = b == b' ' || (leb 9 b && leb b 13)

-- The byte goes in front of the first word, which `open_word` says is not closed yet.
abbrev onto_word : Bool → ℕ → List Bytes → List Bytes
onto_word true b (w ∷ ws) = (b ∷ w) ∷ ws
onto_word _ b ws = (b ∷ []) ∷ ws

starts_word : Bytes → Bool
starts_word [] = false
starts_word (b ∷ bs) = if is_space b then false else true

-- `split_whitespace` of ASCII text.
unfoldable pub split_whitespace : Bytes → List Bytes
unfolding starts_word
split_whitespace [] = []
split_whitespace (b ∷ bs) =
    let words = split_whitespace bs in
    if is_space b then words else onto_word (starts_word bs) b words

-- The largest process id; the kernel lists no negative ones.
abbrev pub i32_max : ℕ
i32_max = 2147483647

-- `pending` and `found` have the newest element first, `seen` is a set.
pub record Search : Type 0 where
  pub seen : List ℕ
  pub pending : List ℕ
  pub found : List ℕ

abbrev pub has : List ℕ → ℕ → Bool
has [] p = false
has (q ∷ qs) p = q == p || has qs p

unfoldable pub add : Search → ℕ → Search
add s child =
    if has s.seen child
    then s
    else record { seen = child ∷ s.seen; pending = child ∷ s.pending; found = child ∷ s.found }

unfoldable pub add_words : List Bytes → Search → Result Failure Search
add_words [] s = ok s
add_words (w ∷ ws) s =
    or_fail (parse_uint i32_max w) invalid_pid >>= λ child. add_words ws (add s child)

unfoldable pub add_children : Listing Bytes → Search → Result Failure Search
unfolding split_whitespace add_words
add_children (found text) s = add_words (split_whitespace text) s
add_children not_found s = ok s
add_children (io_error e) s = err (list_children e)

module _ (fs : ProcFs) where
  unfoldable pub add_threads : ℕ → List (Result ℕ ℕ) → Search → Result Failure Search
  unfolding add_children
  add_threads pid [] s = ok s
  add_threads pid (err e ∷ entries) s = err (read_thread e)
  add_threads pid (ok task ∷ entries) s =
      add_children (fs.children pid task) s >>= λ s'. add_threads pid entries s'

  unfoldable pub add_process : ℕ → Listing (List (Result ℕ ℕ)) → Search → Result Failure Search
  unfolding add_threads
  add_process pid (found entries) s = add_threads pid entries s
  add_process pid not_found s = ok s
  add_process pid (io_error e) s = err (list_threads e)

  -- The loop over the processes still to be visited.
  unfoldable pub search_tree : ℕ → Search → Result Failure (List ℕ)
  unfolding add_process
  search_tree zero s = err out_of_fuel
  search_tree (suc fuel) s = elim s.pending [
    | [] ↦ ok s.found
    | pid ∷ rest ↦
        add_process pid (fs.threads pid) (record s { pending = rest }) >>= λ s'. search_tree fuel s'
  ]

-- No search visits more processes than there are ids.
abbrev pub tree_fuel : ℕ
tree_fuel = 2 ^ 31 + 2

-- The processes below `root`, in the order in which they are signalled.
unfoldable pub descendants : ProcFs → ℕ → Result Failure (List ℕ)
unfolding search_tree
descendants fs root =
    search_tree fs tree_fuel (record { seen = root ∷ []; pending = root ∷ []; found = [] })
