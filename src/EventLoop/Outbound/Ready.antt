-- ===== src/EventLoop/Outbound/Ready.antt =====
-- src/event_loop/outbound.rs: `poll_ready`, which drives the connect tasks and tells the loop whether a
-- connection can make progress.
use nsproxy_rs.Base.{ℕ, Bool, false, ◌&&◌, ◌||◌, List, [], ◌∷◌, length, ltb}
use nsproxy_rs.EventLoop.Socket.{TcpState, tcp_buf_size}
use nsproxy_rs.EventLoop.Outbound.{State, established, OutboundTcp, TaskPoll, poll_connecting}
use nsproxy_rs.EventLoop.Outbound.Forward.{is_open_read}

-- What a connection shows: whether its stream can be read and written, and whether its socket has
-- bytes.
pub record Interest : Type 0 where
  pub read_ready : Bool
  pub write_ready : Bool
  pub can_recv : Bool

-- A read that would not be used, and a write of nothing, do not count.
unfoldable pub is_ready : Interest → State → Bool
is_ready i (established context) =
    is_open_read context.proxy_read_state
      && ltb (length context.proxy_to_app) tcp_buf_size
      && i.read_ready
    || i.can_recv && i.write_ready
is_ready i _ = false

any_ready : (ℕ → Interest) → List (ℕ × State) → Bool
unfolding is_ready
any_ready io [] = false
any_ready io ((handle, state) ∷ m) = is_ready (io handle) state || any_ready io m

unfoldable pub poll_ready :
    (ℕ → TaskPoll) → (ℕ → TcpState) → (ℕ → Interest) → OutboundTcp → OutboundTcp × Bool
unfolding any_ready
poll_ready task tcp io s =
    let (s', connected) = poll_connecting task tcp s in (s', connected || any_ready io s'.states)
