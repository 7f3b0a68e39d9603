-- ===== src/EventLoop/Published/Ready.antt =====
-- src/event_loop/published.rs: `poll_ready`, which tells the loop whether a connection can make progress.
-- A stream taken from the channel here stands first among those that the next tick attaches.
use nsproxy_rs.Base.{ℕ, Bool, false, ◌&&◌, ◌||◌, not, List, [], ◌∷◌, length, ltb}
use nsproxy_rs.EventLoop.Socket.{tcp_buf_size}
use nsproxy_rs.EventLoop.Outbound.Ready.{Interest}
use nsproxy_rs.EventLoop.Published.{State, established, PublishedTcp}

unfoldable pub is_ready : Interest → State → Bool
is_ready i (established context) =
    not context.close_after_drain
      && ltb (length context.host_to_namespace) tcp_buf_size
      && i.read_ready
    || i.can_recv && i.write_ready
is_ready i _ = false

any_ready : (ℕ → Interest) → List (ℕ × State) → Bool
unfolding is_ready
any_ready io [] = false
any_ready io ((handle, state) ∷ m) = is_ready (io handle) state || any_ready io m

-- `received` is whether the channel had a stream.
unfoldable pub poll_ready : Bool → (ℕ → Interest) → PublishedTcp → Bool
unfolding any_ready
poll_ready received io s = received || any_ready io s.states
