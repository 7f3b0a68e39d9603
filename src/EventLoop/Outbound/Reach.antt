-- ===== src/EventLoop/Outbound/Reach.antt =====
-- The states that the loop over outbound connections can reach.
use nsproxy_rs.Base.{
  then_exec-eq-ret, is_some, ℕ, ◌≡◌, refl, sym, subst, ◌∙◌, List, [], ◌∷◌, Option, Exec, ret, arith,
  nat_eq,
}
use nsproxy_rs.Base.Map.{get}
use nsproxy_rs.Config.{Config}
use nsproxy_rs.FakeDns.{FakeDns}
use nsproxy_rs.Rule.{Regex}
use nsproxy_rs.EventLoop.Socket.{TcpState}
use nsproxy_rs.EventLoop.Outbound.{
  EndpointKey, State, OutboundTcp, new, observe_key, Listener, update_listener, each_exec,
  update_listeners, TaskPoll, poll_connecting, each, closing_handles, remove_handle, remove_handles,
  cleanup,
}
use nsproxy_rs.EventLoop.Outbound.Forward.{Round, shuttle_established}
use nsproxy_rs.EventLoop.Outbound.Listeners.{IsValid, remove_handle-IsValid}
use nsproxy_rs.EventLoop.Outbound.Observe.{IsFresh, observe_key-IsValid}

-- A pass keeps the handles.
same_handles-IsValid :
    (s : OutboundTcp) (states : List (ℕ × State))
    → IsValid s
    → ((h : ℕ) → is_some (get h states) ≡ is_some (get h s.states))
    → IsValid (record s { states = states })
same_handles-IsValid s states v same = record {
  tracked = λ h. same h ∙ v.tracked h;
  owned = v.owned;
  owner = v.owner;
  unique = v.unique;
}

is_some-each :
    (f : ℕ → State → State) (h : ℕ) (m : List (ℕ × State))
    → is_some (get h (each f m)) ≡ is_some (get h m)
unfolding get
is_some-each f h [] = refl
is_some-each f h ((j, state) ∷ m) = ground (arith, is_some-each f h m)

is_some-each_exec :
    (rx : Regex) (f : ℕ → State → Exec State) (h : ℕ) (m n : List (ℕ × State))
    → each_exec rx f m ≡ ret n
    → is_some (get h n) ≡ is_some (get h m)
unfolding get
is_some-each_exec rx f h [] n e = let same : [] ≡ n = cc in rw (sym same) refl
is_some-each_exec rx f h ((j, state) ∷ m) n e =
    let (next, first, later) = then_exec-eq-ret (f j state) _ e in
    let (rest, second, last) = then_exec-eq-ret (each_exec rx f m) _ later in
    let same : (j, next) ∷ rest ≡ n = cc in
    rw (sym same) (ground (arith, is_some-each_exec rx f h m rest second))

remove_handles-IsValid : (hs : List ℕ) (s : OutboundTcp) → IsValid s → IsValid (remove_handles hs s)
unfolding remove_handles
remove_handles-IsValid [] s v = v
remove_handles-IsValid (h ∷ hs) s v =
    remove_handles-IsValid hs (remove_handle h s) (remove_handle-IsValid h s v)

new-IsValid : IsValid new
unfolding get
new-IsValid = record {
  tracked = λ h. refl;
  owned = λ h k e. cc;
  owner = λ k e. absurd (cc);
  unique = λ h j k e f. absurd (cc);
}

-- The states that the loop can reach, whatever packets arrive and whatever the sockets answer.
pub data Reached (rx : Regex) : OutboundTcp → Type 1 where
  start : Reached rx new
  observe_step :
      (now : ℕ) (key : EndpointKey) (listened : Option ℕ) (s : OutboundTcp)
      → Reached rx s
      → IsFresh listened s
      → Reached rx (observe_key now key listened s)
  update_step :
      (now : ℕ) (dns : FakeDns) (config : Config rx) (socket : ℕ → Listener) (s t : OutboundTcp)
      → Reached rx s
      → update_listeners rx now dns config socket s ≡ ret t
      → Reached rx t
  poll_step :
      (task : ℕ → TaskPoll) (tcp : ℕ → TcpState) (s : OutboundTcp)
      → Reached rx s
      → Reached rx (poll_connecting task tcp s).0
  shuttle_step :
      (rounds : ℕ → Round) (s : OutboundTcp)
      → Reached rx s
      → Reached rx (shuttle_established rounds s)
  cleanup_step : (s : OutboundTcp) → Reached rx s → Reached rx (cleanup s)

-- In every state that the loop can reach, the endpoints that are listened on are exactly those of the
-- tracked connections, and no two connections have the same endpoint.
pub Reached-IsValid : (rx : Regex) (s : OutboundTcp) → Reached rx s → IsValid s
unfolding poll_connecting shuttle_established cleanup update_listeners
Reached-IsValid rx _ start = new-IsValid
Reached-IsValid rx _ (observe_step now key listened s r fresh) =
    observe_key-IsValid now key listened s (Reached-IsValid rx s r) fresh
Reached-IsValid rx _ (update_step now dns config socket s t r e) =
    let (states, pass, built) =
      then_exec-eq-ret
        (each_exec rx (λ handle. update_listener rx now dns config (socket handle)) s.states) _ e in
    let same : record s { states = states } ≡ t = cc in
    subst IsValid same (
      same_handles-IsValid s states (Reached-IsValid rx s r)
        λ h. is_some-each_exec rx _ h s.states states pass)
Reached-IsValid rx _ (poll_step task tcp s r) =
    same_handles-IsValid s _ (Reached-IsValid rx s r) λ h. is_some-each _ h s.states
Reached-IsValid rx _ (shuttle_step rounds s r) =
    same_handles-IsValid s _ (Reached-IsValid rx s r) λ h. is_some-each _ h s.states
Reached-IsValid rx _ (cleanup_step s r) =
    remove_handles-IsValid (closing_handles s.states) s (Reached-IsValid rx s r)
