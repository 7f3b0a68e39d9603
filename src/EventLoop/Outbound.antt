-- ===== src/EventLoop/Outbound.antt =====
-- src/event_loop/outbound.rs: the connections that applications in the namespace open. A socket handle
-- and an upstream stream are numbers, a connect task is its target and route. `HashMap`s are association
-- lists; each pass over them treats every connection by itself. What smoltcp and Tokio answer is an
-- input of the operations. Log calls have no effect here.
pub mod Forward
pub mod Upload
pub mod Relay
pub mod Listeners
pub mod Observe
pub mod Reach
pub mod Ready
pub mod Tunnel
pub mod Routing
use nsproxy_rs.Base.{
  ℕ, suc, ◌-◌, ◌+◌, ◌<◌, ◌≡◌, refl, ◌↔◌, Bool, true, false, ◌&&◌, ◌||◌, List, [], ◌∷◌, ◌++◌, Option,
  none, some, Bytes, Exec, ret, then_exec, leb, ◌==◌, if◌then◌else◌, nat_eq, arith, Eq, nat_beq_iff,
}
use nsproxy_rs.Base.Map.{get, insert, remove}
use nsproxy_rs.Config.{Config, proxy_for}
use nsproxy_rs.FakeDns.{FakeDns}
use nsproxy_rs.Proxy.{ProxyTarget, ProxyConfig, is_empty}
use nsproxy_rs.Rule.{Regex}
use nsproxy_rs.Tun.{TunDevice, parse_tcp_syn}
use nsproxy_rs.EventLoop.Dns.{target_for}
use nsproxy_rs.EventLoop.Socket.{
  TcpState, closed, closing_wait, fin_wait_1, fin_wait_2, last_ack, time_wait, is_open, is_over,
  tcp_handshake_timeout,
}

abbrev pub EndpointKey : Type 0
EndpointKey = ℕ × ℕ × ℕ × ℕ

abbrev pub key_beq : EndpointKey → EndpointKey → Bool
key_beq (a, b, c, d) (e, f, g, h) = a == e && b == f && c == g && d == h

pub data ProxyReadState : Type 0 where
  open_read eof failed : ProxyReadState

pub record ForwardContext : Type 0 where
  pub stream : ℕ
  pub proxy_to_app : Bytes
  pub proxy_read_state : ProxyReadState

pub data State : Type 0 where
  listening : ℕ → State
  connecting : ProxyTarget → ProxyConfig → State
  established : ForwardContext → State
  closing : State

pub record OutboundTcp : Type 0 where
  pub states : List (ℕ × State)
  pub listening_endpoints : List EndpointKey
  pub handle_to_endpoint : List (ℕ × EndpointKey)

abbrev pub new : OutboundTcp
new = record { states = []; listening_endpoints = []; handle_to_endpoint = [] }

abbrev pub contains_key : EndpointKey → List EndpointKey → Bool
contains_key k [] = false
contains_key k (j ∷ js) = key_beq k j || contains_key k js

abbrev pub without_key : EndpointKey → List EndpointKey → List EndpointKey
without_key k [] = []
without_key k (j ∷ js) = let rest = without_key k js in if key_beq k j then rest else j ∷ rest

-- The end of the loop body of `observe_syns`, with the result of `listen`: the handle of the new
-- socket, or an error.
abbrev pub listen_socket : ℕ → EndpointKey → Option ℕ → OutboundTcp → OutboundTcp
listen_socket now key none s = s
listen_socket now key (some handle) s = record {
  states = insert handle (listening now) s.states;
  listening_endpoints = key ∷ s.listening_endpoints;
  handle_to_endpoint = insert handle key s.handle_to_endpoint;
}

-- The loop body for a SYN: an endpoint that is being listened on already is left alone.
unfoldable pub observe_key : ℕ → EndpointKey → Option ℕ → OutboundTcp → OutboundTcp
observe_key now key listened s =
    if contains_key key s.listening_endpoints then s else listen_socket now key listened s

-- The loop body of `observe_syns` for a packet.
unfoldable pub observe : ℕ → Bytes → Option ℕ → OutboundTcp → Exec OutboundTcp
observe now packet listened s =
    then_exec (parse_tcp_syn packet)
      (λ syn. elim syn [ none ↦ ret s | some key ↦ ret (observe_key now key listened s) ])

-- `observe_syns` over the queue of the device. `listen` answers by the position in the queue, since
-- two copies of a SYN are two calls.
unfoldable pub observe_syns : ℕ → (ℕ → Option ℕ) → TunDevice → OutboundTcp → Exec OutboundTcp
observe_syns now listen [] s = ret s
observe_syns now listen (packet ∷ packets) s =
    then_exec (observe now packet (listen 0) s) (observe_syns now (λ n. listen (suc n)) packets)

-- What `update_listeners` sees of a socket: its state and its local endpoint.
pub record Listener : Type 0 where
  pub state : TcpState
  pub local : Option (ℕ × ℕ)

module _ (rx : Regex) where
  -- The new connect task: its target and the route that `proxy_for` selects.
  abbrev pub start_connect : FakeDns → Config rx → ℕ × ℕ → Exec State
  start_connect dns config (addr, port) =
      let target = target_for dns addr port in
      then_exec (proxy_for rx config target) (λ proxy. ret (connecting target proxy))

  -- `update_listeners` for one connection.
  unfoldable pub update_listener : ℕ → FakeDns → Config rx → Listener → State → Exec State
  update_listener now dns config l (listening created_at) =
      if is_open l.state
      then elim l.local [
        | none ↦ ret (listening created_at)
        | some local ↦ start_connect dns config local
      ]
      else if is_over l.state
      then ret closing
      else if leb tcp_handshake_timeout (now - created_at)
      then ret closing
      else ret (listening created_at)
  update_listener now dns config l s = ret s

  abbrev pub each_exec : (ℕ → State → Exec State) → List (ℕ × State) → Exec (List (ℕ × State))
  each_exec f [] = ret []
  each_exec f ((handle, state) ∷ m) =
      then_exec (f handle state)
        (λ next. then_exec (each_exec f m) (λ rest. ret ((handle, next) ∷ rest)))

  unfoldable pub update_listeners :
      ℕ → FakeDns → Config rx → (ℕ → Listener) → OutboundTcp → Exec OutboundTcp
  update_listeners now dns config socket s =
      then_exec (each_exec (λ handle. update_listener now dns config (socket handle)) s.states)
        (λ states. ret (record s { states = states }))

-- `Closed | Closing | TimeWait | FinWait1 | FinWait2 | LastAck`
abbrev pub client_gone : TcpState → Bool
client_gone closed = true
client_gone closing_wait = true
client_gone time_wait = true
client_gone fin_wait_1 = true
client_gone fin_wait_2 = true
client_gone last_ack = true
client_gone _ = false

-- A poll of a connect task.
pub data TaskPoll : Type 0 where
  connected : ℕ → TaskPoll
  connect_failed panicked pending : TaskPoll

-- `poll_connecting` for one connection: the next state and whether it is ready.
unfoldable pub poll_task : TaskPoll → TcpState → State → State × Bool
poll_task (connected stream) tcp (connecting target proxy) = (
  established (record { stream = stream; proxy_to_app = []; proxy_read_state = open_read }),
  true,
)
poll_task connect_failed tcp (connecting target proxy) = (closing, true)
poll_task panicked tcp (connecting target proxy) = (closing, true)
poll_task pending tcp (connecting target proxy) =
    if client_gone tcp then (closing, true) else (connecting target proxy, false)
poll_task poll tcp s = (s, false)

abbrev pub each : (ℕ → State → State) → List (ℕ × State) → List (ℕ × State)
each f [] = []
each f ((handle, state) ∷ m) = (handle, f handle state) ∷ each f m

abbrev any_ready : (ℕ → State → Bool) → List (ℕ × State) → Bool
any_ready f [] = false
any_ready f ((handle, state) ∷ m) = f handle state || any_ready f m

unfoldable pub poll_connecting : (ℕ → TaskPoll) → (ℕ → TcpState) → OutboundTcp → OutboundTcp × Bool
poll_connecting task tcp s = (
  record s { states = each (λ h state. (poll_task (task h) (tcp h) state).0) s.states },
  any_ready (λ h state. (poll_task (task h) (tcp h) state).1) s.states,
)

abbrev pub is_closing : State → Bool
is_closing closing = true
is_closing _ = false

abbrev pub closing_handles : List (ℕ × State) → List ℕ
closing_handles [] = []
closing_handles ((handle, state) ∷ m) =
    let rest = closing_handles m in if is_closing state then handle ∷ rest else rest

abbrev release_key : Option EndpointKey → List EndpointKey → List EndpointKey
release_key none keys = keys
release_key (some key) keys = without_key key keys

-- The loop body of `cleanup`.
unfoldable pub remove_handle : ℕ → OutboundTcp → OutboundTcp
remove_handle handle s = record {
  states = remove handle s.states;
  listening_endpoints = release_key (get handle s.handle_to_endpoint) s.listening_endpoints;
  handle_to_endpoint = remove handle s.handle_to_endpoint;
}

unfoldable pub remove_handles : List ℕ → OutboundTcp → OutboundTcp
remove_handles [] s = s
remove_handles (handle ∷ handles) s = remove_handles handles (remove_handle handle s)

unfoldable pub cleanup : OutboundTcp → OutboundTcp
cleanup s = remove_handles (closing_handles s.states) s
