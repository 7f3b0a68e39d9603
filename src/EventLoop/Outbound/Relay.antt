-- ===== src/EventLoop/Outbound/Relay.antt =====
-- An outbound connection relays the bytes of the proxy to the application in order, and
-- closes only when all are delivered or something failed.
use nsproxy_rs.Base.{◌-◌, ◌≡◌, ◌≢◌, true, false, List, [], ◌∷◌, ◌++◌, Bytes, length, if◌then◌else◌}
use nsproxy_rs.EventLoop.Socket.{tcp_buf_size}
use nsproxy_rs.EventLoop.Published.Shuttle
use nsproxy_rs.EventLoop.Published.Shuttle.{read_error, received}
use nsproxy_rs.EventLoop.Outbound.{ForwardContext, eof, State, established, closing}
use nsproxy_rs.EventLoop.Outbound.Forward.{
  Round, may_read, read_proxy, delivered, is_none, run_blocks, write_failed, forward,
}

-- The bytes that a round takes from the proxy, and those that it hands to the socket.
abbrev pub taken_in : Round → ForwardContext → Bytes
taken_in round c =
    if may_read c then received (tcp_buf_size - length c.proxy_to_app) round.read else []

abbrev pub handed_out : Round → ForwardContext → Bytes
handed_out round c = delivered round (read_proxy round c).0

abbrev pub held : State → Bytes
held (established c) = c.proxy_to_app
held _ = []

-- Nothing failed in the round, and the socket still receives and sends.
abbrev pub IsClean : Round → Type 0
IsClean round =
    (round.read ≢ read_error)
    × (is_none round.send_result ≡ false)
    × (write_failed round ≡ false)
    × (round.may_recv ≡ true)
    × (round.may_send_after ≡ true)

-- A number of rounds: what they take from the proxy, what they hand to the socket, and the state.
abbrev pub relay : List Round → State → Bytes × Bytes × State
relay [] s = ([], [], s)
relay (round ∷ rounds) (established c) =
    let (more_in, more_out, t) = relay rounds (forward round c) in
    (taken_in round c ++ more_in, handed_out round c ++ more_out, t)
relay (round ∷ rounds) s = ([], [], s)

-- The proxy has ended its stream, the round leaves nothing behind, and the socket has sent all.
abbrev pub Drained : Round → ForwardContext → Type 0
Drained round c =
    ((run_blocks round c).0.proxy_read_state ≡ eof)
    × ((run_blocks round c).0.proxy_to_app ≡ [])
    × (round.send_queue_after ≡ 0)

-- Every round that closes the connection finds it drained.
abbrev pub ClosesDrained : List Round → State → Type 0
ClosesDrained [] s = Unit
ClosesDrained (round ∷ rounds) (established c) =
    (forward round c ≡ closing → Drained round c) × ClosesDrained rounds (forward round c)
ClosesDrained (round ∷ rounds) s = Unit
