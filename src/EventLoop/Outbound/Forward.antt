-- ===== src/EventLoop/Outbound/Forward.antt =====
-- src/event_loop/outbound.rs: `shuttle_established`, one round for one connection. What the upstream
-- stream and the socket answer in the round, in the order of the calls, is an input.
use nsproxy_rs.Base.{
  ℕ, ◌-◌, min, Bool, true, false, ◌&&◌, ◌||◌, not, [], ◌++◌, Option, none, some, Bytes, length,
  take, drop, ltb, ◌==◌, if◌then◌else◌,
}
use nsproxy_rs.Proxy.{is_empty}
use nsproxy_rs.EventLoop.Socket.{tcp_buf_size}
use nsproxy_rs.EventLoop.Published.Shuttle.{
  ReadResult, would_block, read_error, data_read, received,
}
use nsproxy_rs.EventLoop.Published.Shuttle
use nsproxy_rs.EventLoop.Outbound.{
  ForwardContext, ProxyReadState, open_read, eof, failed, State, established, closing, OutboundTcp,
  each,
}

-- The answer of `try_write` on the upstream stream.
pub data WriteResult : Type 0 where
  wrote : ℕ → WriteResult
  write_blocked write_error : WriteResult

-- The answers of one round: whether the socket can receive and the bytes that `recv` offers, the write
-- of them to the upstream, the read, whether the socket can send and what is in its send queue, how
-- many bytes `send_slice` takes or `none` for an error, and what the socket shows at the end.
pub record Round : Type 0 where
  pub may_recv_before : Bool
  pub can_recv : Bool
  pub recv_data : Bytes
  pub write : WriteResult
  pub read : ReadResult
  pub can_send : Bool
  pub send_queue : ℕ
  pub send_result : Option ℕ
  pub send_queue_after : ℕ
  pub may_recv : Bool
  pub may_send_after : Bool

-- The closure of `recv`: what the stream takes, what stays in the socket, and whether the write failed.
abbrev pub on_write : WriteResult → Bytes → Bytes × Bytes × Bool
on_write write [] = ([], [], false)
on_write (wrote n) offered = (take n offered, drop n offered, false)
on_write write_blocked offered = ([], offered, false)
on_write write_error offered = ([], offered, true)

-- The block that takes the application's bytes to the proxy.
unfoldable pub upload : Round → Bytes × Bytes × Bool
upload round =
    if round.may_recv_before && round.can_recv
    then on_write round.write round.recv_data
    else ([], round.recv_data, false)

-- The write failed, and the socket has been aborted for it.
unfoldable pub write_failed : Round → Bool
unfolding upload
write_failed round = (upload round).2

abbrev pub is_open_read : ProxyReadState → Bool
is_open_read open_read = true
is_open_read _ = false

abbrev pub is_eof : ProxyReadState → Bool
is_eof eof = true
is_eof _ = false

-- The context in the round, and whether the socket has been aborted.
abbrev pub Step : Type 0
Step = ForwardContext × Bool

abbrev pub may_read : ForwardContext → Bool
may_read c = is_open_read c.proxy_read_state && ltb (length c.proxy_to_app) tcp_buf_size

abbrev pub on_read : ReadResult → ForwardContext → Step
on_read Shuttle.eof c = (record c { proxy_read_state = eof }, false)
on_read would_block c = (c, false)
on_read read_error c = (record c { proxy_read_state = failed }, true)
on_read (data_read b bs) c =
    let space = tcp_buf_size - length c.proxy_to_app in
    (record c { proxy_to_app = c.proxy_to_app ++ received space (data_read b bs) }, false)

-- The block that reads from the proxy.
unfoldable pub read_proxy : Round → ForwardContext → Step
read_proxy round c = if may_read c then on_read round.read c else (c, false)

abbrev pub send_len : Round → ForwardContext → ℕ
send_len round c = min (tcp_buf_size - round.send_queue) (length c.proxy_to_app)

abbrev pub may_send : Round → ForwardContext → Bool
may_send round c = not (is_empty c.proxy_to_app) && round.can_send && ltb 0 (send_len round c)

abbrev pub taken : Round → ForwardContext → ℕ
taken round c = elim round.send_result [ none ↦ 0 | some n ↦ min n (send_len round c) ]

abbrev pub delivered : Round → ForwardContext → Bytes
delivered round c = if may_send round c then take (taken round c) c.proxy_to_app else []

abbrev pub is_none : Option ℕ → Bool
is_none none = true
is_none (some n) = false

-- The block that sends to the application.
unfoldable pub send_app : Round → Step → Step
send_app round (c, aborted) =
    if may_send round c
    then (
      record c { proxy_to_app = drop (taken round c) c.proxy_to_app },
      aborted || is_none round.send_result,
    )
    else (c, aborted)

abbrev pub is_drained : Round → ForwardContext → Bool
is_drained round c =
    is_eof c.proxy_read_state
    && is_empty c.proxy_to_app
    && round.send_queue_after == 0
    && round.may_send_after

unfoldable pub run_blocks : Round → ForwardContext → Step
run_blocks round c = send_app round (read_proxy round c)

-- A round for an established connection: its next state. An aborted socket neither receives nor sends.
unfoldable pub forward : Round → ForwardContext → State
forward round c =
    let (d, aborted) = run_blocks round c in
    if write_failed round
      || aborted
      || is_drained round d
      || not round.may_recv
      || not round.may_send_after
    then closing
    else established d

abbrev pub forward_state : Round → State → State
forward_state round (established c) = forward round c
forward_state round s = s

unfoldable pub shuttle_established : (ℕ → Round) → OutboundTcp → OutboundTcp
shuttle_established rounds s = record s {
  states = each (λ handle. forward_state (rounds handle)) s.states;
}
