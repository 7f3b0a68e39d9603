-- ===== src/Process/Reaper/Signals.antt =====
-- src/process.rs: which signals a termination sends.
use nsproxy_rs.Base.{ℕ, ◌≤◌, ◌≡◌, refl, subst, inl, inr, List, [], ◌∷◌}
use nsproxy_rs.Sys.{failed, Answer-cases, Kernel, Post, Post-bind}
use nsproxy_rs.Process.{ProcFs, i32_max}
use nsproxy_rs.Process.Descendants.{IsComplete}
use nsproxy_rs.Process.Complete.{IsReadable, descendants-IsComplete}
use nsproxy_rs.Process.Reaper.{
  Call, Calls, kill, esrch, forward_signal, signal_all, signal_descendants,
}

-- The signals sent, the last one first.
unfoldable pub kills : Calls → List (ℕ × ℕ)
kills [] = []
kills ((kill pid signal, answer) ∷ t) = (pid, signal) ∷ kills t
kills ((_, answer) ∷ t) = kills t

unfoldable pub sent_onto : ℕ → List ℕ → List (ℕ × ℕ) → List (ℕ × ℕ)
sent_onto signal [] before = before
sent_onto signal (pid ∷ pids) before = sent_onto signal pids ((pid, signal) ∷ before)

-- A signal to a descendant fails at most because the process is gone.
abbrev pub MaySignal : Kernel Call → Type 0
MaySignal k = (t : Calls) (pid signal e : ℕ) → k t (kill pid signal) ≡ failed e → e ≡ esrch

module _ (k : Kernel Call) (may : MaySignal k) where
  forward_signal-kills :
      (pid signal : ℕ) (t : Calls)
      → Post (λ u t'. kills t' ≡ (pid, signal) ∷ kills t) (λ t'. ⊥) (forward_signal pid signal k t)
  unfolding forward_signal kills
  forward_signal-kills pid signal t = elim (Answer-cases (k t (kill pid signal))) [
    | inl (n, bytes, success) ↦ rw success refl
    | inr (e, failure) ↦
        let gone : e ≡ esrch = may t pid signal e failure in rw (failure, gone) refl
  ]

  signal_all-kills :
      (signal : ℕ) (pids : List ℕ) (t : Calls)
      → Post
          (λ u t'. kills t' ≡ sent_onto signal pids (kills t))
          (λ t'. ⊥)
          (signal_all signal pids k t)
  unfolding signal_all sent_onto
  signal_all-kills signal [] t = refl
  signal_all-kills signal (pid ∷ pids) t =
      Post-bind (λ u t'. kills t' ≡ sent_onto signal pids ((pid, signal) ∷ kills t)) (λ t'. ⊥)
        (λ u t'. kills t' ≡ (pid, signal) ∷ kills t) k (forward_signal pid signal k t)
        (λ u. signal_all signal pids) (forward_signal-kills pid signal t)
        λ u t1 h1.
          subst
            (λ l.
              Post (λ u t'. kills t' ≡ sent_onto signal pids l) (λ t'. ⊥)
                (signal_all signal pids k t1))
            h1 (signal_all-kills signal pids t1)

  -- If no process of the tree is refused, every descendant of the root gets the signal, each once,
  -- and nothing else does; children get it before their parents in a tree.
  pub signal_descendants-kills :
      (fs : ProcFs) (root signal : ℕ) (t : Calls)
      → root ≤ i32_max
      → IsReadable fs root
      → (out : List ℕ) × IsComplete fs root out
        × Post
            (λ u t'. kills t' ≡ sent_onto signal out (kills t))
            (λ t'. ⊥)
            (signal_descendants fs root signal k t)
  unfolding signal_descendants
  signal_descendants-kills fs root signal t pid readable =
      let (out, run, complete) = descendants-IsComplete fs root pid readable in
      (out, complete, rw run (signal_all-kills signal out t))
