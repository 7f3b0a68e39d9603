-- ===== src/EventLoop/Published.antt =====
-- src/event_loop/published.rs: the connections from the host into the namespace. A socket handle, a
-- host stream and a peer address are numbers. `HashMap`s are association lists; each pass over them
-- treats every connection by itself, so the order of the pass does not matter. The accept tasks and
-- the channel are Tokio's: what they deliver is the list `pending`.
pub mod Shuttle
pub mod Ready
pub mod Relay
pub mod Leaks
use nsproxy_rs.Base.{
  ℕ, ◌+◌, ◌-◌, ◌≤◌, min, Bool, true, false, ◌&&◌, ◌||◌, not, List, [], ◌∷◌, ◌++◌, map, Option, none,
  some, Bytes, length, take, drop, leb, ltb, ◌==◌, if◌then◌else◌, nat_eq,
}
use nsproxy_rs.Base.Map.{get, insert, remove}
use nsproxy_rs.EventLoop.Ports
use nsproxy_rs.EventLoop.Ports.{PortAllocator, allocate, release}
use nsproxy_rs.EventLoop.Socket.{TcpState, is_open, is_over, tcp_handshake_timeout}

pub record AcceptedConnection : Type 0 where
  pub stream : ℕ
  pub peer_addr : ℕ
  pub namespace_port : ℕ

pub record ConnectionContext : Type 0 where
  pub stream : ℕ
  pub peer_addr : ℕ
  pub host_to_namespace : Bytes
  pub close_after_drain : Bool

pub data State : Type 0 where
  connecting : ℕ → ℕ → ℕ → State
  established : ConnectionContext → State
  closing : State

pub record PublishedTcp : Type 0 where
  pub states : List (ℕ × State)
  pub handle_to_port : List (ℕ × ℕ)
  pub ports : PortAllocator

abbrev pub new : PublishedTcp
new = record { states = []; handle_to_port = []; ports = Ports.new }

-- The end of the loop body of `attach_accepted`, with the port and the result of `connect`: the handle
-- of the new socket, or an error.
abbrev pub connect_socket : ℕ → AcceptedConnection → Option ℕ → ℕ → PublishedTcp → PublishedTcp
connect_socket now accepted none port s = record s { ports = release port s.ports }
connect_socket now accepted (some handle) port s = record s {
  states = insert handle (connecting accepted.stream accepted.peer_addr now) s.states;
  handle_to_port = insert handle port s.handle_to_port;
}

abbrev pub with_port : ℕ → AcceptedConnection → Option ℕ → Option ℕ → PublishedTcp → PublishedTcp
with_port now accepted connected none s = s
with_port now accepted connected (some port) s = connect_socket now accepted connected port s

-- The loop body of `attach_accepted`: a connection for which no port is left is dropped.
unfoldable pub attach : ℕ → AcceptedConnection → Option ℕ → PublishedTcp → PublishedTcp
attach now accepted connected s =
    let (port, ports) = allocate s.ports in
    with_port now accepted connected port (record s { ports = ports })

-- `attach_accepted` over what was accepted, each with the result of its `connect`.
unfoldable pub attach_accepted :
    ℕ → List (AcceptedConnection × Option ℕ) → PublishedTcp → PublishedTcp
attach_accepted now [] s = s
attach_accepted now ((accepted, connected) ∷ pending) s =
    attach_accepted now pending (attach now accepted connected s)

-- `poll_connecting` for one connection, whose socket shows the given state.
unfoldable pub poll_state : ℕ → TcpState → State → State
poll_state now tcp (connecting stream peer_addr created_at) =
    if is_open tcp
    then established (record {
      stream = stream;
      peer_addr = peer_addr;
      host_to_namespace = [];
      close_after_drain = false;
    })
    else if is_over tcp
    then closing
    else if leb tcp_handshake_timeout (now - created_at)
    then closing
    else connecting stream peer_addr created_at
poll_state now tcp s = s

-- A pass over the connections that changes their states.
abbrev pub each : (ℕ → State → State) → List (ℕ × State) → List (ℕ × State)
each f [] = []
each f ((handle, state) ∷ m) = (handle, f handle state) ∷ each f m

-- `poll_connecting`, with the state that each socket shows.
unfoldable pub poll_connecting : ℕ → (ℕ → TcpState) → PublishedTcp → PublishedTcp
poll_connecting now tcp s = record s {
  states = each (λ handle. poll_state now (tcp handle)) s.states;
}

abbrev pub is_closing : State → Bool
is_closing closing = true
is_closing _ = false

-- The handles that `cleanup` collects.
abbrev pub closing_handles : List (ℕ × State) → List ℕ
closing_handles [] = []
closing_handles ((handle, state) ∷ m) =
    let rest = closing_handles m in if is_closing state then handle ∷ rest else rest

abbrev release_option : Option ℕ → PortAllocator → PortAllocator
release_option none ports = ports
release_option (some port) ports = release port ports

-- The loop body of `cleanup`.
unfoldable pub remove_handle : ℕ → PublishedTcp → PublishedTcp
remove_handle handle s = record {
  states = remove handle s.states;
  handle_to_port = remove handle s.handle_to_port;
  ports = release_option (get handle s.handle_to_port) s.ports;
}

unfoldable pub remove_handles : List ℕ → PublishedTcp → PublishedTcp
remove_handles [] s = s
remove_handles (handle ∷ handles) s = remove_handles handles (remove_handle handle s)

unfoldable pub cleanup : PublishedTcp → PublishedTcp
cleanup s = remove_handles (closing_handles s.states) s
