-- ===== src/EventLoop/Tick.antt =====
-- src/event_loop.rs: one iteration of the loop. What smoltcp, Tokio
-- and the device answer during an iteration is its input; the two calls of `Interface::poll` take
-- packets from the queue of the device.
pub mod Valid
use nsproxy_rs.Base.{
  ℕ, ◌≡◌, ◌≢◌, refl, sym, subst, ◌∙◌, Bool, true, false, List, [], ◌∷◌, Option, none, some, Bytes,
  Exec, ret, then_exec, drop, if◌then◌else◌, nat_eq, arith,
}
use nsproxy_rs.Config.{Config, proxy_for}
use nsproxy_rs.Proxy.{ProxyTarget, ProxyConfig}
use nsproxy_rs.FakeDns.{FakeDns}
use nsproxy_rs.FakeDns
use nsproxy_rs.Rule.{Regex}
use nsproxy_rs.Tun.{TunDevice, Read, poll_read}
use nsproxy_rs.EventLoop.Dns.{Received}
use nsproxy_rs.EventLoop.Dns
use nsproxy_rs.EventLoop.Socket.{TcpState}
use nsproxy_rs.EventLoop.Outbound.{OutboundTcp, Listener, observe_syns, update_listeners}
use nsproxy_rs.EventLoop.Outbound
use nsproxy_rs.EventLoop.Outbound.Forward
use nsproxy_rs.EventLoop.Published.{PublishedTcp, AcceptedConnection, attach_accepted}
use nsproxy_rs.EventLoop.Published
use nsproxy_rs.EventLoop.Published.Shuttle

-- `while self.device.poll_read() {}`: the reads up to the first that gives nothing.
unfoldable pub read_all : TunDevice → List Read → TunDevice
read_all device [] = device
read_all device (r ∷ rs) =
    let p = poll_read device r in let rest = read_all p.0 rs in if p.1 then rest else p.0

-- What the environment answers in one iteration.
pub record Inputs : Type 0 where
  pub now : ℕ
  pub reads : List Read
  -- The handle of the socket that `listen` makes for the packet at a position of the queue.
  pub listen : ℕ → Option ℕ
  -- The accepted streams, each with the result of its `connect`.
  pub accepted : List (AcceptedConnection × Option ℕ)
  -- How many packets the two calls of `poll` take.
  pub taken : ℕ
  pub taken_after : ℕ
  pub received : List Received
  pub listeners : ℕ → Listener
  pub forwards : ℕ → Forward.Round
  pub tcp : ℕ → TcpState
  pub shuttles : ℕ → Shuttle.Round

module _ (rx : Regex) where
  pub record EventLoop : Type 0 where
    pub config : Config rx
    pub device : TunDevice
    pub dns : FakeDns
    pub outbound : OutboundTcp
    pub published : PublishedTcp

  -- `OutboundTcp::process`; the log of transitions has no effect.
  unfoldable pub process_outbound : Inputs → FakeDns → Config rx → OutboundTcp → Exec OutboundTcp
  process_outbound i dns config s =
      then_exec (update_listeners rx i.now dns config i.listeners s)
        (λ s'. ret (Forward.shuttle_established i.forwards s'))

  -- `PublishedTcp::process`.
  unfoldable pub process_published : Inputs → PublishedTcp → PublishedTcp
  process_published i s =
      Shuttle.shuttle_established i.shuttles (Published.poll_connecting i.now i.tcp s)

  unfoldable pub tick : Inputs → EventLoop → Exec EventLoop
  unfolding read_all process_outbound process_published
  tick i e =
      let device = read_all e.device i.reads in
      then_exec (observe_syns i.now i.listen device e.outbound) (λ observed.
        let attached = attach_accepted i.now i.accepted e.published in
        let polled = drop i.taken device in
        then_exec (Dns.process e.dns i.received) (λ answered.
          then_exec (process_outbound i answered.0 e.config observed) (λ processed.
            let published = process_published i attached in
            let polled_again = drop i.taken_after polled in
            ret (record {
              config = e.config;
              device = polled_again;
              dns = answered.0;
              outbound = Outbound.cleanup processed;
              published = Published.cleanup published;
            }))))
