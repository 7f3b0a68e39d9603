-- ===== src/EventLoop/Socket.antt =====
-- The TCP sockets of smoltcp as the loop observes them, and the constants of src/event_loop.rs. The
-- library is not part of the repository: what a socket shows is an input of the operations.
use nsproxy_rs.Base.{ℕ, Bool, true, false}

abbrev pub tcp_buf_size : ℕ
tcp_buf_size = 65536

-- In milliseconds.
abbrev pub tcp_handshake_timeout : ℕ
tcp_handshake_timeout = 32000

-- `tcp::State`.
pub data TcpState : Type 0 where
  closed listen syn_sent syn_received established fin_wait_1 fin_wait_2 : TcpState
  close_wait closing_wait last_ack time_wait : TcpState

-- `Established | CloseWait`
abbrev pub is_open : TcpState → Bool
is_open established = true
is_open close_wait = true
is_open _ = false

-- `Closed | TimeWait`
abbrev pub is_over : TcpState → Bool
is_over closed = true
is_over time_wait = true
is_over _ = false
