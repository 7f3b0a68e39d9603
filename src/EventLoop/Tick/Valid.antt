-- ===== src/EventLoop/Tick/Valid.antt =====
-- src/event_loop.rs: the loop keeps the states of its parts well formed, and an iteration completes.
use nsproxy_rs.Base.{drop}
use nsproxy_rs.Base.{
  ℕ, suc, false, ◌≡◌, refl, List, [], ◌∷◌, Option, some, Option-cases, Bool-cases, leb, ◌-◌, inl,
  inr, Bytes, Exec, ret, nat_eq,
}
use nsproxy_rs.Config.{Config, proxy_for}
use nsproxy_rs.Proxy.{ProxyTarget, ProxyConfig}
use nsproxy_rs.FakeDns.{FakeDns}
use nsproxy_rs.FakeDns.Invariant
use nsproxy_rs.Rule.{Regex}
use nsproxy_rs.Tun.{TunDevice, parse_tcp_syn}
use nsproxy_rs.Tun.Syn.{parse_tcp_syn_total}
use nsproxy_rs.EventLoop.Dns.{target_for}
use nsproxy_rs.EventLoop.Dns.Answers.{process-IsValid}
use nsproxy_rs.EventLoop.Socket.{is_open, is_over, tcp_handshake_timeout}
use nsproxy_rs.EventLoop.Outbound.{
  EndpointKey, contains_key, OutboundTcp, State, Listener, listening, connecting, established,
  closing, observe, observe_key, observe_syns, update_listener, update_listeners, each_exec,
  start_connect,
}
use nsproxy_rs.EventLoop.Outbound.Observe
use nsproxy_rs.EventLoop.Outbound.Reach.{Reached}
use nsproxy_rs.EventLoop.Outbound.Reach
use nsproxy_rs.EventLoop.Published.{PublishedTcp, AcceptedConnection, attach, attach_accepted}
use nsproxy_rs.EventLoop.Published.Leaks.Attach
use nsproxy_rs.EventLoop.Published.Leaks.Reach.{Reachable}
use nsproxy_rs.EventLoop.Published.Leaks.Reach as PublishedReach
use nsproxy_rs.EventLoop.Outbound.Forward
use nsproxy_rs.EventLoop.Published.Shuttle
use nsproxy_rs.EventLoop.Published
use nsproxy_rs.EventLoop.Outbound
use nsproxy_rs.EventLoop.Tick.{
  Inputs, EventLoop, read_all, process_outbound, process_published, tick,
}

-- The handles of new sockets belong to no connection when they are given out.
abbrev pub FreshAccepted : ℕ → List (AcceptedConnection × Option ℕ) → PublishedTcp → Type 0
FreshAccepted now [] s = Unit
FreshAccepted now ((a, connected) ∷ pending) s =
    Attach.IsFresh connected s × FreshAccepted now pending (attach now a connected s)

-- A packet is a SYN for an endpoint on which nothing listens yet: `listen` is called for it.
abbrev pub IsNew : Bytes → OutboundTcp → Type 0
IsNew p s =
    (key : EndpointKey) × (parse_tcp_syn p ≡ ret (some key))
    × (contains_key key s.listening_endpoints ≡ false)

abbrev pub FreshListened : ℕ → (ℕ → Option ℕ) → TunDevice → OutboundTcp → Type 0
FreshListened now listen [] s = Unit
FreshListened now listen (p ∷ ps) s =
    (IsNew p s → Observe.IsFresh (listen 0) s)
    × ((s' : OutboundTcp)
        → observe now p (listen 0) s ≡ ret s'
        → FreshListened now (λ n. listen (suc n)) ps s')

attach_accepted-Reachable :
    (now : ℕ) (pending : List (AcceptedConnection × Option ℕ)) (s : PublishedTcp)
    → Reachable s
    → FreshAccepted now pending s
    → Reachable (attach_accepted now pending s)
unfolding attach_accepted
attach_accepted-Reachable now [] s r f = r
attach_accepted-Reachable now ((a, connected) ∷ pending) s r f =
    attach_accepted-Reachable now pending (attach now a connected s)
      (PublishedReach.attach_step now a connected s r f.0) f.1

module _ (rx : Regex) where
  observe-Reached :
      (now : ℕ) (packet : Bytes) (listened : Option ℕ) (s : OutboundTcp)
      → Reached rx s
      → (IsNew packet s → Observe.IsFresh listened s)
      → (s' : OutboundTcp) × (observe now packet listened s ≡ ret s') × Reached rx s'
  unfolding observe observe_key
  observe-Reached now packet listened s r f =
      let (syn, e) = parse_tcp_syn_total packet in
      elim (Option-cases syn) [
        | inl none_seen ↦ (s, rw (e, none_seen) refl, r)
        | inr (key, seen) ↦ elim (Bool-cases (contains_key key s.listening_endpoints)) [
          | inl known ↦ (s, rw (e, seen, known) refl, r)
          | inr unheard ↦
              let fresh = f (key, rw (e, seen) refl, unheard) in
              (
                observe_key now key listened s,
                rw (e, seen) refl,
                Reach.observe_step now key listened s r fresh,
              )
        ]
      ]

  observe_syns-Reached :
      (now : ℕ) (listen : ℕ → Option ℕ) (device : TunDevice) (s : OutboundTcp)
      → Reached rx s
      → FreshListened now listen device s
      → (s' : OutboundTcp) × (observe_syns now listen device s ≡ ret s') × Reached rx s'
  unfolding observe_syns
  observe_syns-Reached now listen [] s r f = (s, refl, r)
  observe_syns-Reached now listen (p ∷ ps) s r f =
      let (s1, e1, r1) = observe-Reached now p (listen 0) s r f.0 in
      let (s2, e2, r2) = observe_syns-Reached now (λ n. listen (suc n)) ps s1 r1 (f.1 s1 e1) in
      (s2, rw e1 e2, r2)

  -- Every target has a route.
  abbrev pub Routes : Config rx → Type 0
  Routes config = (target : ProxyTarget) → (p : ProxyConfig) × (proxy_for rx config target ≡ ret p)

  update_listener_total :
      (now : ℕ) (dns : FakeDns) (config : Config rx) (l : Listener) (state : State)
      → Routes config
      → (next : State) × (update_listener rx now dns config l state ≡ ret next)
  unfolding update_listener
  update_listener_total now dns config l (listening created_at) routes =
      elim (Bool-cases (is_open l.state)) [
        | inl opened ↦ elim (Option-cases l.local) [
          | inl no_endpoint ↦ (listening created_at, rw (opened, no_endpoint) refl)
          | inr (local, e) ↦
              let (p, routed) = routes (target_for dns local.0 local.1) in
              (connecting (target_for dns local.0 local.1) p, rw (opened, e, routed) refl)
        ]
        | inr shut ↦ elim (Bool-cases (is_over l.state)) [
          | inl over ↦ (closing, rw (shut, over) refl)
          | inr waits ↦ elim (Bool-cases (leb tcp_handshake_timeout (now - created_at))) [
            | inl late ↦ (closing, rw (shut, waits, late) refl)
            | inr early ↦ (listening created_at, rw (shut, waits, early) refl)
          ]
        ]
      ]
  update_listener_total now dns config l (connecting target proxy) routes =
      (connecting target proxy, refl)
  update_listener_total now dns config l (established c) routes = (established c, refl)
  update_listener_total now dns config l closing routes = (closing, refl)

  each_exec_total :
      (f : ℕ → State → Exec State) (m : List (ℕ × State))
      → ((h : ℕ) (state : State) → (next : State) × (f h state ≡ ret next))
      → (n : List (ℕ × State)) × (each_exec rx f m ≡ ret n)
  each_exec_total f [] total = ([], refl)
  each_exec_total f ((h, state) ∷ m) total =
      let (next, e) = total h state in
      let (rest, g) = each_exec_total f m total in ((h, next) ∷ rest, rw (e, g) refl)

  process_outbound-Reached :
      (i : Inputs) (dns : FakeDns) (config : Config rx) (s : OutboundTcp)
      → Routes config
      → Reached rx s
      → (s' : OutboundTcp) × (process_outbound rx i dns config s ≡ ret s') × Reached rx s'
  unfolding process_outbound update_listeners
  process_outbound-Reached i dns config s routes r =
      let (states, e) =
        each_exec_total (λ h. update_listener rx i.now dns config (i.listeners h)) s.states
          (λ h state. update_listener_total i.now dns config (i.listeners h) state routes) in
      let s1 : OutboundTcp = record s { states = states } in
      let updated : update_listeners rx i.now dns config i.listeners s ≡ ret s1 = rw e refl in
      (
        Forward.shuttle_established i.forwards s1,
        rw e refl,
        Reach.shuttle_step i.forwards s1
            (Reach.update_step i.now dns config i.listeners s s1 r updated),
      )

  -- The parts of the loop are in states that they can reach by their own operations.
  pub record IsValid (e : EventLoop rx) : Type 1 where
    pub dns_valid : Invariant.IsValid e.dns
    pub outbound_reached : Reached rx e.outbound
    pub published_reachable : Reachable e.published
    pub routes : Routes e.config

  abbrev pub Fresh : Inputs → EventLoop rx → Type 0
  Fresh i e =
      FreshListened i.now i.listen (read_all e.device i.reads) e.outbound
      × FreshAccepted i.now i.accepted e.published

  -- An iteration completes, whatever arrives: no index into a packet, the rules or the DNS table is out
  -- of range. Each part makes steps of its own only.
  pub tick-IsValid :
      (i : Inputs) (e : EventLoop rx)
      → IsValid e
      → Fresh i e
      → (e' : EventLoop rx) × (tick rx i e ≡ ret e') × IsValid e' × (e'.config ≡ e.config)
  unfolding tick process_published
  tick-IsValid i e v (heard, taken) =
      let (observed, e1, r1) =
        observe_syns-Reached i.now i.listen (read_all e.device i.reads) e.outbound
          v.outbound_reached heard in
      let attached = attach_accepted i.now i.accepted e.published in
      let r2 = attach_accepted-Reachable i.now i.accepted e.published v.published_reachable taken in
      let (answered, e3, valid) = process-IsValid e.dns i.received v.dns_valid in
      let (processed, e4, r4) =
        process_outbound-Reached i answered.0 e.config observed v.routes r1 in
      let polled = Published.poll_connecting i.now i.tcp attached in
      let shuttled = Shuttle.shuttle_established i.shuttles polled in
      let r5 =
        PublishedReach.shuttle_step i.shuttles polled
          (PublishedReach.poll_step i.now i.tcp attached r2) in
      let next : EventLoop rx = record {
        config = e.config;
        device = drop i.taken_after (drop i.taken (read_all e.device i.reads));
        dns = answered.0;
        outbound = Outbound.cleanup processed;
        published = Published.cleanup shuttled;
      } in
      (
        next,
        rw (e1, e3, e4) refl,
        record {
          dns_valid = valid;
          outbound_reached = Reach.cleanup_step processed r4;
          published_reachable = PublishedReach.cleanup_step shuttled r5;
          routes = v.routes;
        },
        refl,
      )
