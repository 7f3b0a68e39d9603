-- ===== src/EventLoop/Published/Shuttle.antt =====
-- src/event_loop/published.rs: `shuttle_established`, one round for one connection. What the host
-- stream and the socket answer in the round, in the order of the calls, is an input.
use nsproxy_rs.Base.{
  ℕ, ◌-◌, min, Bool, true, false, ◌&&◌, ◌||◌, not, [], ◌∷◌, ◌++◌, Option, none, some, Bytes, length,
  take, drop, ltb, ◌==◌, if◌then◌else◌,
}
use nsproxy_rs.Proxy.{is_empty}
use nsproxy_rs.EventLoop.Socket.{TcpState, is_over, tcp_buf_size}
use nsproxy_rs.EventLoop.Published.{
  ConnectionContext, State, established, closing, PublishedTcp, each,
}

-- A result of `try_read`: the end of the stream, nothing yet, an error, or some bytes, of which a
-- read takes what its buffer holds.
pub data ReadResult : Type 0 where
  eof would_block read_error : ReadResult
  data_read : ℕ → Bytes → ReadResult

-- The answers of one round: the read, whether the socket can send, its send queue, how many bytes
-- `send_slice` takes or `none` for an error, whether a write of received bytes to the host failed,
-- and what the socket shows at the end.
pub record Round : Type 0 where
  pub read : ReadResult
  pub can_send : Bool
  pub send_queue : ℕ
  pub send_result : Option ℕ
  pub write_failed : Bool
  pub may_recv : Bool
  pub recv_queue_after : ℕ
  pub send_queue_after : ℕ
  pub state_after : TcpState

-- The context in the round, and `failed`.
abbrev pub Step : Type 0
Step = ConnectionContext × Bool

-- A read into a buffer of `space` bytes; a first byte is there, since an empty read is the end.
abbrev pub received : ℕ → ReadResult → Bytes
received space (data_read b bs) = take space (b ∷ bs)
received space _ = []

abbrev pub on_read : ReadResult → ConnectionContext → Step
on_read eof c = (record c { close_after_drain = true }, false)
on_read would_block c = (c, false)
on_read read_error c = (c, true)
on_read (data_read b bs) c =
    let space = tcp_buf_size - length c.host_to_namespace in
    (record c { host_to_namespace = c.host_to_namespace ++ received space (data_read b bs) }, false)

abbrev pub may_read : ConnectionContext → Bool
may_read c = not c.close_after_drain && ltb (length c.host_to_namespace) tcp_buf_size

-- The first block.
unfoldable pub read_host : Round → ConnectionContext → Step
read_host round c = if may_read c then on_read round.read c else (c, false)

abbrev pub send_len : Round → ConnectionContext → ℕ
send_len round c = min (tcp_buf_size - round.send_queue) (length c.host_to_namespace)

abbrev pub may_send : Round → ConnectionContext → Bool
may_send round c = not (is_empty c.host_to_namespace) && round.can_send && ltb 0 (send_len round c)

-- How many bytes `send_slice` takes of those that it is given.
abbrev pub taken : Round → ConnectionContext → ℕ
taken round c = elim round.send_result [ none ↦ 0 | some n ↦ min n (send_len round c) ]

abbrev pub is_none : Option ℕ → Bool
is_none none = true
is_none (some n) = false

-- The bytes that the round hands to the socket.
abbrev pub delivered : Round → ConnectionContext → Bytes
delivered round c = if may_send round c then take (taken round c) c.host_to_namespace else []

-- The second block.
unfoldable pub send_namespace : Round → Step → Step
send_namespace round (c, failed) =
    if may_send round c
    then (
      record c { host_to_namespace = drop (taken round c) c.host_to_namespace },
      failed || is_none round.send_result,
    )
    else (c, failed)

-- The third block, and the check for a peer that will send no more.
unfoldable pub finish_receive : Round → Step → Step
finish_receive round (c, failed) =
    if not round.may_recv && round.recv_queue_after == 0
    then (record c { close_after_drain = true }, failed || round.write_failed)
    else (c, failed || round.write_failed)

abbrev pub is_drained : Round → ConnectionContext → Bool
is_drained round c =
    c.close_after_drain
    && is_empty c.host_to_namespace
    && round.send_queue_after == 0
    && round.recv_queue_after == 0

-- The blocks up to the last one.
unfoldable pub run_blocks : Round → ConnectionContext → Step
run_blocks round c = finish_receive round (send_namespace round (read_host round c))

-- A round for an established connection: its next state.
unfoldable pub shuttle : Round → ConnectionContext → State
shuttle round c =
    let (d, failed) = run_blocks round c in
    if failed || is_over round.state_after || is_drained round d then closing else established d

abbrev pub shuttle_state : Round → State → State
shuttle_state round (established c) = shuttle round c
shuttle_state round s = s

-- The pass over the established connections.
unfoldable pub shuttle_established : (ℕ → Round) → PublishedTcp → PublishedTcp
shuttle_established rounds s = record s {
  states = each (λ handle. shuttle_state (rounds handle)) s.states;
}
