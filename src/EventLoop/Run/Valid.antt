-- ===== src/EventLoop/Run/Valid.antt =====
-- src/event_loop.rs: the whole run of the loop.
use nsproxy_rs.Base.{
  ℕ, ◌≡◌, refl, ◌⊎◌, inl, inr, Bool, true, false, Bool-cases, Option, none, some, List, [], ◌∷◌,
  ret, nat_eq,
}
use nsproxy_rs.Config.{Config}
use nsproxy_rs.FakeDns.Invariant
use nsproxy_rs.Rule.{Regex}
use nsproxy_rs.EventLoop.Outbound.Reach.{Reached}
use nsproxy_rs.EventLoop.Outbound.Reach
use nsproxy_rs.EventLoop.Published.Leaks.Reach.{Reachable}
use nsproxy_rs.EventLoop.Published.Leaks.Reach as PublishedReach
use nsproxy_rs.EventLoop.Outbound.Listeners
use nsproxy_rs.EventLoop.Published.Leaks
use nsproxy_rs.EventLoop.Tick.{EventLoop, tick}
use nsproxy_rs.EventLoop.Run.{
  Wake, Round, poll_select, select, wait_timeout, wait_for_work, run, new,
}
use nsproxy_rs.EventLoop.Outbound.Ready
use nsproxy_rs.EventLoop.Tick.Valid.{Fresh, IsValid, Routes, tick-IsValid}

module _ (rx : Regex) where
  poll_select-Valid :
      (timeout : ℕ) (w : Wake) (e : EventLoop rx)
      → IsValid rx e
      → IsValid rx (poll_select rx timeout w e).0
  unfolding poll_select Ready.poll_ready
  poll_select-Valid timeout w e v = elim (Bool-cases w.shutdown_changed) [
    | inl over ↦ rw over v
    | inr on ↦ rw on (record {
      dns_valid = v.dns_valid;
      outbound_reached = Reach.poll_step w.tasks w.tcp e.outbound v.outbound_reached;
      published_reachable = v.published_reachable;
      routes = v.routes;
    })
  ]

  select-Valid :
      (timeout : ℕ) (ws : List Wake) (e : EventLoop rx)
      → IsValid rx e
      → IsValid rx (select rx timeout ws e).0
  unfolding select
  select-Valid timeout [] e v = v
  select-Valid timeout (w ∷ ws) e v =
      let v' = poll_select-Valid timeout w e v in
      elim (Bool-cases (poll_select rx timeout w e).1) [
        | inl woken ↦ rw woken v'
        | inr waits ↦ rw waits (select-Valid timeout ws (poll_select rx timeout w e).0 v')
      ]

  wait_for_work-Valid :
      (r : Round) (e : EventLoop rx) → IsValid rx e → IsValid rx (wait_for_work rx r e).0
  unfolding wait_for_work
  wait_for_work-Valid r e v = elim (Bool-cases r.shutdown) [
    | inl over ↦ rw over v
    | inr on ↦ rw on (select-Valid (wait_timeout r.poll_delay) r.wakes e v)
  ]

  abbrev pub RunFresh : List Round → EventLoop rx → Type 0
  RunFresh [] e = Unit
  RunFresh (r ∷ rs) e =
      Fresh rx r.inputs (wait_for_work rx r e).0
      × ((e' : EventLoop rx) → tick rx r.inputs (wait_for_work rx r e).0 ≡ ret e' → RunFresh rs e')

  goes_on-cases : (b : Option Bool) → (b ≡ none) ⊎ ((b ≡ some true) ⊎ (b ≡ some false))
  goes_on-cases none = inl refl
  goes_on-cases (some true) = inr (inl refl)
  goes_on-cases (some false) = inr (inr refl)

  run-Valid :
      (rs : List Round) (e : EventLoop rx)
      → IsValid rx e
      → RunFresh rs e
      → (e' : EventLoop rx) × (run rx rs e ≡ ret e') × IsValid rx e'
  unfolding run
  run-Valid [] e v f = (e, refl, v)
  run-Valid (r ∷ rs) e v (fresh, later) =
      let e0 = (wait_for_work rx r e).0 in
      let v0 = wait_for_work-Valid r e v in
      elim (goes_on-cases (wait_for_work rx r e).1) [
        | inl waits ↦ (e0, rw waits refl, v0)
        | inr (inl on) ↦
            let (e1, ran, v1, same) = tick-IsValid rx r.inputs e0 v0 fresh in
            let (e2, rest, v2) = run-Valid rs e1 v1 (later e1 ran) in (e2, rw (on, ran) rest, v2)
        | inr (inr over) ↦ (e0, rw over refl, v0)
      ]

  -- The well-formedness of the three parts, as their modules state it.
  pub record PartsValid (e : EventLoop rx) : Type 0 where
    pub dns_valid : Invariant.IsValid e.dns
    pub outbound_valid : Listeners.IsValid e.outbound
    pub published_valid : Leaks.IsValid e.published

  -- From the start, however many rounds run, whatever wakes the loop and whatever arrives, no
  -- index is out of range, and behind the last one the DNS table, the outbound connections and the published connections are
  -- well formed, if every target has a route and new sockets get unused handles.
  pub run-PartsValid :
      (config : Config rx) (rs : List Round)
      → Routes rx config
      → RunFresh rs (new rx config)
      → (e : EventLoop rx) × (run rx rs (new rx config) ≡ ret e) × PartsValid e
  unfolding new
  run-PartsValid config rs routes fresh =
      let start : IsValid rx (new rx config) = record {
        dns_valid = Invariant.new-IsValid;
        outbound_reached = Reach.start;
        published_reachable = PublishedReach.start;
        routes = routes;
      } in
      let (e, ran, v) = run-Valid rs (new rx config) start fresh in
      (
        e,
        ran,
        record {
          dns_valid = v.dns_valid;
          outbound_valid = Reach.Reached-IsValid rx e.outbound v.outbound_reached;
          published_valid = PublishedReach.Reachable-IsValid e.published v.published_reachable;
        },
      )
