-- ===== src/Startup/Prepare.antt =====
-- src/main.rs: the steps of the parent that must succeed before it releases the child.
use nsproxy_rs.Base.{ℕ, refl, List, [], ◌∷◌, inl, inr, All, arith}
use nsproxy_rs.Sys.{Answer, done, Answer-cases, Kernel, Post, require}
use nsproxy_rs.Namespace.{
  Call, Calls, Failure, bind_publish_specs, build_runtime, register_publish_specs, listen, system,
  then-Post,
}
use nsproxy_rs.Startup.{prepare, sigterm, sigint, sighup}
use nsproxy_rs.Startup.Channel.{Message, sent, received, launched, Chan}
use nsproxy_rs.Startup.Maps.{Did, Done, Lasting, Done-Lasting}

abbrev pub bound : List Call
bound = bind_publish_specs ∷ []

abbrev pub built : List Call
built = build_runtime ∷ bound

abbrev pub registered : List Call
registered = register_publish_specs ∷ built

abbrev pub hears_term : List Call
hears_term = listen sigterm ∷ registered

abbrev pub hears_int : List Call
hears_int = listen sigint ∷ hears_term

-- The calls of `prepare`, the last one first.
abbrev pub prepare_calls : List Call
prepare_calls = listen sighup ∷ hears_int

abbrev pub AllDone : List Call → Calls → Type 0
AllDone cs t = All (λ c. Done c t) cs

pub AllDone-Lasting : (cs : List Call) → Lasting (AllDone cs)
AllDone-Lasting [] e t h = tt
AllDone-Lasting (c ∷ cs) e t (d, h) = (Done-Lasting c e t d, AllDone-Lasting cs e t h)

module _ (k : Kernel Call) (s r : List Message) (J : Calls → Type 0) (lasting : Lasting J) where
  abbrev pub State : List Call → Calls → Type 0
  State cs t = AllDone cs t × (Chan s r t × J t)

  state-Done :
      (cs : List Call) (c : Call) (e : ℕ → Failure)
      → ((a : Answer) (t : Calls) → Chan s r t → Chan s r ((c, a) ∷ t))
      → (t : Calls) → State cs t
      → Post (λ u. State (c ∷ cs)) (Chan s r) (require c e k t)
  unfolding Did
  state-Done cs c e kept t (done_before, (ch, j)) = elim (Answer-cases (k t c)) [
    | inl (n, bytes, success) ↦ rw success (
      ((n, inl (refl, refl)), AllDone-Lasting cs (c, done n bytes) t done_before),
      (kept _ t ch, lasting _ t j),
    )
    | inr (errno, failure) ↦ rw failure (kept _ t ch)
  ]

  pub prepare-State :
      (t : Calls) → Chan s r t → J t → Post (λ u. State prepare_calls) (Chan s r) (prepare k t)
  unfolding prepare sent received launched
  prepare-State t h j =
      then-Post (State prepare_calls) (State bound) (Chan s r) k
        (require bind_publish_specs (system "bind --publish") k t) _
        (state-Done [] bind_publish_specs _ (λ a t' c. ground arith) t (tt, (h, j)))
        λ u t1 h1.
          then-Post (State prepare_calls) (State built) (Chan s r) k
            (require build_runtime (system "build tokio runtime") k t1) _
            (state-Done bound build_runtime _ (λ a t' c. ground arith) t1 h1)
            λ u t2 h2.
              then-Post (State prepare_calls) (State registered) (Chan s r) k
                (require register_publish_specs (system "register --publish") k t2) _
                (state-Done built register_publish_specs _ (λ a t' c. ground arith) t2 h2)
                λ u t3 h3.
                  then-Post (State prepare_calls) (State hears_term) (Chan s r) k
                    (require (listen sigterm) (system "listen for SIGTERM") k t3) _
                    (state-Done registered (listen sigterm) _ (λ a t' c. ground arith) t3 h3)
                    λ u t4 h4.
                      then-Post (State prepare_calls) (State hears_int) (Chan s r) k
                        (require (listen sigint) (system "listen for SIGINT") k t4) _
                        (state-Done hears_term (listen sigint) _ (λ a t' c. ground arith) t4 h4)
                        λ u t5 h5.
                          state-Done hears_int (listen sighup) _ (λ a t' c. ground arith) t5 h5
