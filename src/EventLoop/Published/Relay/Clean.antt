-- ===== src/EventLoop/Published/Relay/Clean.antt =====
-- A published connection loses no byte from the host as long as nothing fails.
use nsproxy_rs.Base.{◌≡◌, ◌≢◌, true, false, List, [], ◌∷◌}
use nsproxy_rs.EventLoop.Socket.{is_over}
use nsproxy_rs.EventLoop.Published.{ConnectionContext, State, established, closing}
use nsproxy_rs.EventLoop.Published.Shuttle.{read_error, Round, is_none, run_blocks, shuttle}

-- Nothing failed in the round: no read, send or write, and the socket is not closed.
abbrev pub IsClean : Round → Type 0
IsClean round =
    (round.read ≢ read_error)
    × (is_none round.send_result ≡ false)
    × (round.write_failed ≡ false)
    × (is_over round.state_after ≡ false)

-- One of the two sides has ended, the round leaves nothing behind, and the socket has sent all that it
-- was handed and given out all that it received.
abbrev pub Drained : Round → ConnectionContext → Type 0
Drained round c =
    ((run_blocks round c).0.close_after_drain ≡ true)
    × ((run_blocks round c).0.host_to_namespace ≡ [])
    × (round.send_queue_after ≡ 0)
    × (round.recv_queue_after ≡ 0)

-- Every round that closes the connection finds it drained.
abbrev pub ClosesDrained : List Round → State → Type 0
ClosesDrained [] s = Unit
ClosesDrained (round ∷ rounds) (established c) =
    (shuttle round c ≡ closing → Drained round c) × ClosesDrained rounds (shuttle round c)
ClosesDrained (round ∷ rounds) s = Unit
