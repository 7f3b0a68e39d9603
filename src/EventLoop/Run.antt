-- ===== src/EventLoop/Run.antt =====
-- src/event_loop.rs: the loop until the shutdown. The timer of smoltcp, the flag of the shutdown and the
-- readiness of the device are inputs; time is in milliseconds.
pub mod Valid
pub mod Timely
use nsproxy_rs.Base.{
  ℕ, Bool, true, false, not, ◌||◌, List, [], ◌∷◌, Option, none, some, Exec, ret, then_exec, leb,
  if◌then◌else◌,
}
use nsproxy_rs.Config.{Config, unwrap_or}
use nsproxy_rs.FakeDns
use nsproxy_rs.Rule.{Regex}
use nsproxy_rs.EventLoop.Socket.{TcpState}
use nsproxy_rs.EventLoop.Outbound.{TaskPoll}
use nsproxy_rs.EventLoop.Outbound
use nsproxy_rs.EventLoop.Outbound.Ready.{Interest}
use nsproxy_rs.EventLoop.Outbound.Ready
use nsproxy_rs.EventLoop.Published
use nsproxy_rs.EventLoop.Published.Ready as PublishedReady
use nsproxy_rs.EventLoop.Tick.{Inputs, EventLoop, tick}

abbrev pub max_poll_delay : ℕ
max_poll_delay = 100

abbrev pub default_poll_delay : ℕ
default_poll_delay = 50

-- How long to sleep for the `poll_delay` of smoltcp, if it has one.
unfoldable pub wait_timeout : Option ℕ → ℕ
wait_timeout delay =
    let asked = unwrap_or delay default_poll_delay in
    let at_least = if leb asked 1 then 1 else asked in
    if leb at_least max_poll_delay then at_least else max_poll_delay

-- What one poll of the `select` finds.
pub record Wake : Type 0 where
  pub shutdown_changed : Bool
  pub tasks : ℕ → TaskPoll
  pub tcp : ℕ → TcpState
  pub outbound_io : ℕ → Interest
  pub accepted : Bool
  pub published_io : ℕ → Interest
  pub device_readable : Bool
  -- Since the sleep began.
  pub elapsed : ℕ

-- One round of the loop: the flag and the delay before the wait, the polls of the `select`, the flag
-- behind it, and the inputs of the iteration.
pub record Round : Type 0 where
  pub shutdown : Bool
  pub poll_delay : Option ℕ
  pub wakes : List Wake
  pub shutdown_after : Bool
  pub inputs : Inputs

module _ (rx : Regex) where
  -- One poll of the `select`: its branches stand in order, and the first that is ready ends it.
  unfoldable pub poll_select : ℕ → Wake → EventLoop rx → EventLoop rx × Bool
  poll_select timeout w e =
      if w.shutdown_changed
      then (e, true)
      else (let (outbound, ready) = Ready.poll_ready w.tasks w.tcp w.outbound_io e.outbound in
          let attaches = PublishedReady.poll_ready w.accepted w.published_io e.published in
          (
            record e { outbound = outbound },
            ready || attaches || w.device_readable || leb timeout w.elapsed,
          ))

  -- Whether one of the branches has been ready.
  unfoldable pub select : ℕ → List Wake → EventLoop rx → EventLoop rx × Bool
  select timeout [] e = (e, false)
  select timeout (w ∷ ws) e =
      let p = poll_select timeout w e in let rest = select timeout ws p.0 in if p.1 then p else rest

  -- `some` of whether the loop goes on, or `none` while it still waits.
  unfoldable pub wait_for_work : Round → EventLoop rx → EventLoop rx × Option Bool
  wait_for_work r e =
      if r.shutdown
      then (e, some false)
      else (let (e', woken) = select (wait_timeout r.poll_delay) r.wakes e in
          (e', (if woken then some (not r.shutdown_after) else none)))

  -- Behind the wait: the iteration and the rest of the loop, or its end.
  abbrev pub go_on :
      (EventLoop rx → Exec (EventLoop rx)) → EventLoop rx → Option Bool → Exec (EventLoop rx)
  go_on rest e none = ret e
  go_on rest e (some false) = ret e
  go_on rest e (some true) = rest e

  unfoldable pub run : List Round → EventLoop rx → Exec (EventLoop rx)
  run [] e = ret e
  run (r ∷ rs) e =
      let w = wait_for_work r e in go_on (λ e'. then_exec (tick rx r.inputs e') (run rs)) w.0 w.1

  -- The state with which `EventLoop::new` succeeds, once the descriptor of the device is set up.
  unfoldable pub new : Config rx → EventLoop rx
  new config = record {
    config = config;
    device = [];
    dns = FakeDns.new;
    outbound = Outbound.new;
    published = Published.new;
  }
