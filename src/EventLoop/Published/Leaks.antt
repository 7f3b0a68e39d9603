-- ===== src/EventLoop/Published/Leaks.antt =====
-- No source port leaks: a port is used exactly as long as a connection owns it. The invariant, and
-- the removal of a connection.
pub mod Attach
pub mod Reach
use nsproxy_rs.Base.{
  is_some, ℕ, ◌≡◌, ◌≢◌, refl, sym, ap, ◌∙◌, inl, inr, Bool, true, false, ◌||◌, List, [], ◌∷◌,
  Option, none, some, ◌==◌, if◌then◌else◌, arith, Bool-cases, Option-cases, nat_eq, nat_beq_iff,
}
use nsproxy_rs.Base.Map.{get, insert, remove, get-insert, get-remove}
use nsproxy_rs.EventLoop.Ports
use nsproxy_rs.EventLoop.Ports.{PortAllocator, is_used, allocate, release, without}
use nsproxy_rs.EventLoop.Ports.Free.{IsPort, Allocates, allocate-cases, is_used-without}
use nsproxy_rs.EventLoop.Socket.{TcpState}
use nsproxy_rs.EventLoop.Published.Shuttle.{Round, shuttle_state, shuttle_established}
use nsproxy_rs.EventLoop.Published.{
  AcceptedConnection, State, connecting, established, closing, PublishedTcp, new, connect_socket,
  with_port, attach, poll_state, each, poll_connecting, is_closing, closing_handles, release_option,
  remove_handle, remove_handles, cleanup,
}

-- Every connection has a port of its own, and every used port has a connection.
pub record IsValid (s : PublishedTcp) : Type 0 where
  pub next : IsPort s.ports.next
  pub tracked : (h : ℕ) → is_some (get h s.states) ≡ is_some (get h s.handle_to_port)
  pub owned : (h p : ℕ) → get h s.handle_to_port ≡ some p → is_used p s.ports.used ≡ true
  pub owner : (p : ℕ) → is_used p s.ports.used ≡ true → (h : ℕ) × (get h s.handle_to_port ≡ some p)
  pub unique :
      (h j p : ℕ) → get h s.handle_to_port ≡ some p → get j s.handle_to_port ≡ some p → h ≡ j

-- What `release` leaves.
pub release-used :
    (p q : ℕ) (a : PortAllocator)
    → is_used q (release p a).used ≡ (if p == q then false else is_used q a.used)
unfolding release
release-used p q a = is_used-without p q a.used

module _ (h : ℕ) (s : PublishedTcp) (v : IsValid s) where
  pub remove_handle-tracked :
      (j : ℕ)
      → is_some (get j (remove_handle h s).states)
        ≡ is_some (get j (remove_handle h s).handle_to_port)
  unfolding remove_handle
  remove_handle-tracked j =
      ground (arith, get-remove h j s.states, get-remove h j s.handle_to_port, v.tracked j)

  remove_handle-used :
      (p : ℕ)
      → get h s.handle_to_port ≡ some p
      → (q : ℕ)
      → is_used q (remove_handle h s).ports.used
        ≡ (if p == q then false else is_used q s.ports.used)
  unfolding remove_handle
  remove_handle-used p e q = rw e (release-used p q s.ports)

  pub remove_handle-port :
      (j : ℕ)
      → get j (remove_handle h s).handle_to_port ≡ (if h == j then none else get j s.handle_to_port)
  unfolding remove_handle
  remove_handle-port j = get-remove h j s.handle_to_port

  remove_handle-next : IsPort (remove_handle h s).ports.next
  unfolding remove_handle release
  remove_handle-next = elim (Option-cases (get h s.handle_to_port)) [
    | inl e ↦ rw e v.next
    | inr (p, e) ↦ rw e v.next
  ]

  remove_handle-unowned :
      get h s.handle_to_port ≡ none → (remove_handle h s).ports.used ≡ s.ports.used
  unfolding remove_handle
  remove_handle-unowned e = rw e refl

  remove_handle-owner :
      (p : ℕ)
      → get h s.handle_to_port ≡ some p
      → (q : ℕ) → is_used q (remove_handle h s).ports.used ≡ true
      → (j : ℕ) × (get j (remove_handle h s).handle_to_port ≡ some q)
  remove_handle-owner p e q k =
      let used : is_used q s.ports.used ≡ true = ground (arith, remove_handle-used p e q) in
      let (j, g) = v.owner q used in
      (
        j,
        ground (
          arith,
          remove_handle-port j,
          remove_handle-used p e q,
          ap (λ i. get i s.handle_to_port),
        ),
      )

  remove_handle-unowned_owner :
      get h s.handle_to_port ≡ none
      → (q : ℕ) → is_used q (remove_handle h s).ports.used ≡ true
      → (j : ℕ) × (get j (remove_handle h s).handle_to_port ≡ some q)
  remove_handle-unowned_owner e q k =
      let used : is_used q s.ports.used ≡ true =
        ap (is_used q) (sym (remove_handle-unowned e)) ∙ k in
      let (j, g) = v.owner q used in
      (j, ground (arith, g, remove_handle-port j, ap (λ i. get i s.handle_to_port)))

  -- Removing a connection frees its port and no other.
  pub remove_handle-IsValid : IsValid (remove_handle h s)
  remove_handle-IsValid = elim (Option-cases (get h s.handle_to_port)) [
    | inl e ↦ record {
      next = remove_handle-next;
      tracked = remove_handle-tracked;
      owned = λ j q k.
          ground
            (arith, remove_handle-port j, ap (is_used q) (remove_handle-unowned e), v.owned j q);
      owner = remove_handle-unowned_owner e;
      unique =
          λ i j q k l. ground (arith, remove_handle-port i, remove_handle-port j, v.unique i j q);
    }
    | inr (p, e) ↦ record {
      next = remove_handle-next;
      tracked = remove_handle-tracked;
      owned = λ j q k.
          ground
            (arith, remove_handle-port j, remove_handle-used p e q, v.owned j q, v.unique h j q);
      owner = remove_handle-owner p e;
      unique =
          λ i j q k l. ground (arith, remove_handle-port i, remove_handle-port j, v.unique i j q);
    }
  ]
