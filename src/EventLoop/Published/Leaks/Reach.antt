-- ===== src/EventLoop/Published/Leaks/Reach.antt =====
-- The states that the loop over published connections can reach, and the clean-up of closed ones.
use nsproxy_rs.Base.{
  is_some, ℕ, ◌≡◌, ◌≢◌, refl, sym, ap, ◌∙◌, inl, inr, true, false, List, [], ◌∷◌, Option, none,
  some, ◌==◌, arith, Bool-cases, nat_eq,
}
use nsproxy_rs.Base.Map.{get, remove, get-remove}
use nsproxy_rs.EventLoop.Ports.{is_used}
use nsproxy_rs.EventLoop.Socket.{TcpState}
use nsproxy_rs.EventLoop.Published.Shuttle.{Round, shuttle_state, shuttle_established}
use nsproxy_rs.EventLoop.Published.{
  AcceptedConnection, State, closing, PublishedTcp, new, attach, poll_state, each, poll_connecting,
  is_closing, closing_handles, remove_handle, remove_handles, cleanup,
}
use nsproxy_rs.EventLoop.Published.Leaks.{IsValid, remove_handle-IsValid}
use nsproxy_rs.EventLoop.Published.Leaks.Attach.{IsFresh, attach-IsValid}

is_some-each :
    (f : ℕ → State → State) (h : ℕ) (m : List (ℕ × State))
    → is_some (get h (each f m)) ≡ is_some (get h m)
unfolding get
is_some-each f h [] = refl
is_some-each f h ((j, state) ∷ m) = ground (arith, is_some-each f h m)

each-IsValid :
    (f : ℕ → State → State) (s : PublishedTcp)
    → IsValid s
    → IsValid (record s { states = each f s.states })
each-IsValid f s v = record {
  next = v.next;
  tracked = λ h. is_some-each f h s.states ∙ v.tracked h;
  owned = v.owned;
  owner = v.owner;
  unique = v.unique;
}

remove_handles-IsValid :
    (hs : List ℕ) (s : PublishedTcp) → IsValid s → IsValid (remove_handles hs s)
unfolding remove_handles
remove_handles-IsValid [] s v = v
remove_handles-IsValid (h ∷ hs) s v =
    remove_handles-IsValid hs (remove_handle h s) (remove_handle-IsValid h s v)

new-IsValid : IsValid new
unfolding get
new-IsValid = record {
  next = (omega arith, omega arith);
  tracked = λ h. refl;
  owned = λ h p k. cc;
  owner = λ p k. absurd (cc);
  unique = λ h j p k l. absurd (cc);
}

-- The states that the loop can reach, whatever is accepted and whatever the sockets answer.
pub data Reachable : PublishedTcp → Type 0 where
  start : Reachable new
  attach_step :
      (now : ℕ) (accepted : AcceptedConnection) (connected : Option ℕ) (s : PublishedTcp)
      → Reachable s
      → IsFresh connected s
      → Reachable (attach now accepted connected s)
  poll_step :
      (now : ℕ) (tcp : ℕ → TcpState) (s : PublishedTcp)
      → Reachable s
      → Reachable (poll_connecting now tcp s)
  shuttle_step :
      (rounds : ℕ → Round) (s : PublishedTcp)
      → Reachable s
      → Reachable (shuttle_established rounds s)
  cleanup_step : (s : PublishedTcp) → Reachable s → Reachable (cleanup s)

-- In every state that the loop can reach, each connection has a source port of its own, and every
-- used port belongs to a connection: no port leaks, whichever way the connections fail or end.
pub Reachable-IsValid : (s : PublishedTcp) → Reachable s → IsValid s
unfolding poll_connecting shuttle_established cleanup
Reachable-IsValid _ start = new-IsValid
Reachable-IsValid _ (attach_step now accepted connected s r fresh) =
    attach-IsValid now accepted connected s (Reachable-IsValid s r) fresh
Reachable-IsValid _ (poll_step now tcp s r) =
    each-IsValid (λ handle. poll_state now (tcp handle)) s (Reachable-IsValid s r)
Reachable-IsValid _ (shuttle_step rounds s r) =
    each-IsValid (λ handle. shuttle_state (rounds handle)) s (Reachable-IsValid s r)
Reachable-IsValid _ (cleanup_step s r) =
    remove_handles-IsValid (closing_handles s.states) s (Reachable-IsValid s r)

true-ne-false : true ≢ false
true-ne-false e = cc

remove_handles-gone :
    (hs : List ℕ) (h : ℕ) (s : PublishedTcp)
    → get h s.states ≡ none
    → get h (remove_handles hs s).states ≡ none
unfolding remove_handles remove_handle
remove_handles-gone [] h s e = e
remove_handles-gone (j ∷ hs) h s e =
    remove_handles-gone hs h (remove_handle j s) (ground (arith, get-remove j h s.states))

closing-gone :
    (m : List (ℕ × State)) (h : ℕ) (s : PublishedTcp)
    → get h m ≡ some closing
    → get h (remove_handles (closing_handles m) s).states ≡ none
unfolding get remove_handles remove_handle
closing-gone [] h s e = cc
closing-gone ((j, state) ∷ m) h s e = elim (Bool-cases (j == h)) [
  | inl same ↦
      let closed : state ≡ closing = ground arith in
      rw closed (
        remove_handles-gone (closing_handles m) h (remove_handle j s)
          (ground (arith, get-remove j h s.states)))
  | inr other ↦
      let later : get h m ≡ some closing = ground arith in
      elim (Bool-cases (is_closing state)) [
        | inl c ↦ rw c (closing-gone m h (remove_handle j s) later)
        | inr c ↦ rw c (closing-gone m h s later)
      ]
]

remove_handles-port :
    (hs : List ℕ) (h p : ℕ) (s : PublishedTcp)
    → get h (remove_handles hs s).handle_to_port ≡ some p
    → get h s.handle_to_port ≡ some p
unfolding remove_handles remove_handle
remove_handles-port [] h p s e = e
remove_handles-port (j ∷ hs) h p s e =
    let before : get h (remove j s.handle_to_port) ≡ some p =
      remove_handles-port hs h p (remove_handle j s) e in
    ground (arith, before, get-remove j h s.handle_to_port)

-- `cleanup` removes every connection that is closing, and its port is free again.
pub cleanup-released :
    (s : PublishedTcp) (h p : ℕ)
    → IsValid s
    → get h s.states ≡ some closing
    → get h s.handle_to_port ≡ some p
    → (get h (cleanup s).states ≡ none) × (is_used p (cleanup s).ports.used ≡ false)
unfolding cleanup
cleanup-released s h p v closes owns =
    let gone : get h (cleanup s).states ≡ none = closing-gone s.states h s closes in
    let after : IsValid (cleanup s) = remove_handles-IsValid (closing_handles s.states) s v in
    (
      gone,
      elim (Bool-cases (is_used p (cleanup s).ports.used)) [
        | inr free ↦ free
        | inl used ↦
            let (j, g) = after.owner p used in
            let mine : j ≡ h =
              v.unique j h p (remove_handles-port (closing_handles s.states) j p s g) owns in
            let held : get h (cleanup s).handle_to_port ≡ some p =
              ap (λ i. get i (cleanup s).handle_to_port) (sym mine) ∙ g in
            absurd (true-ne-false (sym (ap is_some held) ∙ sym (after.tracked h) ∙ ap is_some gone))
      ],
    )
