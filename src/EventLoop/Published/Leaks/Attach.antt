-- ===== src/EventLoop/Published/Leaks/Attach.antt =====
-- A new connection takes a port of its own, and gives it back if it fails.
use nsproxy_rs.Base.{
  is_some, ℕ, ◌≡◌, refl, sym, ap, ◌∙◌, inl, inr, true, false, ◌||◌, ◌∷◌, Option, none, some, ◌==◌,
  if◌then◌else◌, arith, Bool-cases, nat_eq,
}
use nsproxy_rs.Base.Map.{get, get-insert}
use nsproxy_rs.EventLoop.Ports.{PortAllocator, is_used, allocate, release}
use nsproxy_rs.EventLoop.Ports.Free.{IsPort, allocate-cases}
use nsproxy_rs.EventLoop.Published.{
  AcceptedConnection, connecting, PublishedTcp, connect_socket, attach,
}
use nsproxy_rs.EventLoop.Published.Leaks.{IsValid, release-used}

module _ (now : ℕ) (accepted : AcceptedConnection) (s : PublishedTcp) (v : IsValid s) where
  -- The state behind an allocation that succeeded, with the socket's handle.
  module _ (h port : ℕ) (ports : PortAllocator) (fresh : get h s.states ≡ none)
      (free : is_used port s.ports.used ≡ false) (now_used : ports.used ≡ port ∷ s.ports.used)
      (next : IsPort ports.next) where
    attached : PublishedTcp
    attached = connect_socket now accepted (some h) port (record s { ports = ports })

    attached-port :
        (j : ℕ)
        → get j attached.handle_to_port ≡ (if h == j then some port else get j s.handle_to_port)
    unfolding attached
    attached-port j = get-insert h j port s.handle_to_port

    attached-state :
        (j : ℕ)
        → is_some (get j attached.states) ≡ (if h == j then true else is_some (get j s.states))
    unfolding attached
    attached-state j =
        ground (arith, get-insert h j (connecting accepted.stream accepted.peer_addr now) s.states)

    attached-used : (q : ℕ) → is_used q attached.ports.used ≡ (q == port || is_used q s.ports.used)
    unfolding attached
    attached-used q = rw now_used refl

    attached-owner :
        (q : ℕ)
        → is_used q attached.ports.used ≡ true
        → (j : ℕ) × (get j attached.handle_to_port ≡ some q)
    attached-owner q k = elim (Bool-cases (q == port)) [
      | inl e ↦ (h, ground (arith, attached-port h))
      | inr e ↦
          let used : is_used q s.ports.used ≡ true = ground (arith, attached-used q) in
          let (j, g) = v.owner q used in
          (j, ground (arith, g, attached-port j, v.tracked h, ap (λ i. get i s.handle_to_port)))
    ]

    attached-IsValid : IsValid attached
    attached-IsValid = record {
      next = unfold attached in next;
      tracked = λ j. ground (arith, attached-port j, attached-state j, v.tracked j);
      owned = λ j q k. ground (arith, attached-port j, attached-used q, v.owned j q);
      owner = attached-owner;
      unique = λ i j q k l.
          ground (
            arith,
            attached-port i,
            attached-port j,
            v.unique i j q,
            v.owned i port,
            v.owned j port,
          );
    }

-- Only which ports are used counts, not how the set is stored.
same_ports-IsValid :
    (s : PublishedTcp) (ports : PortAllocator)
    → IsValid s
    → IsPort ports.next
    → ((q : ℕ) → is_used q ports.used ≡ is_used q s.ports.used)
    → IsValid (record s { ports = ports })
same_ports-IsValid s ports v n same = record {
  next = n;
  tracked = v.tracked;
  owned = λ j q k. same q ∙ v.owned j q k;
  owner = λ q k. v.owner q (sym (same q) ∙ k);
  unique = v.unique;
}

-- The handle that smoltcp gives to a new socket belongs to no connection.
abbrev pub IsFresh : Option ℕ → PublishedTcp → Type 0
IsFresh none s = Unit
IsFresh (some h) s = get h s.states ≡ none

connect_socket-IsValid :
    (now port : ℕ) (accepted : AcceptedConnection) (connected : Option ℕ) (s : PublishedTcp)
    (ports : PortAllocator)
    → IsValid s
    → IsFresh connected s
    → is_used port s.ports.used ≡ false
    → ports.used ≡ port ∷ s.ports.used
    → IsPort ports.next
    → IsValid (connect_socket now accepted connected port (record s { ports = ports }))
connect_socket-IsValid now port accepted none s ports v fresh free used next =
    same_ports-IsValid s (release port ports) v (unfold release in next)
      λ q. ground (arith, release-used port q ports, ap (is_used q) used)
connect_socket-IsValid now port accepted (some h) s ports v fresh free used next =
    unfold attached in attached-IsValid now accepted s v h port ports fresh free used next

pub attach-IsValid :
    (now : ℕ) (accepted : AcceptedConnection) (connected : Option ℕ) (s : PublishedTcp)
    → IsValid s
    → IsFresh connected s
    → IsValid (attach now accepted connected s)
unfolding attach
attach-IsValid now accepted connected s v fresh = elim (allocate-cases s.ports v.next) [
  | inl a ↦
      rw (attach, a.result)
        (connect_socket-IsValid now a.port accepted connected s (allocate s.ports).1 v fresh
          a.was_free a.now_used a.next_in_range)
  | inr (none_left, same, next) ↦
      rw (attach, none_left)
        (same_ports-IsValid s (allocate s.ports).1 v next λ q. ap (is_used q) same)
]
