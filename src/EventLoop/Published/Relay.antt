-- ===== src/EventLoop/Published/Relay.antt =====
-- A published connection relays the bytes of the host in order, in bounded memory, and what it holds
-- while it does.
pub mod Clean
use nsproxy_rs.Base.{
  ℕ, ◌+◌, ◌-◌, ◌≤◌, ◌≡◌, ◌≢◌, refl, sym, ap, ◌∙◌, inl, inr, Bool, true, false, ◌&&◌, ◌||◌, not,
  List, [], ◌∷◌, ◌++◌, Bytes, length, ◌==◌, if◌then◌else◌, arith, All, Bool-cases, append_assoc,
  append-nil, take-append-drop, length-append, length-take,
}
use nsproxy_rs.Proxy.{is_empty-eq-true}
use nsproxy_rs.EventLoop.Socket.{is_over, tcp_buf_size}
use nsproxy_rs.EventLoop.Published.{ConnectionContext, State, connecting, established, closing}
use nsproxy_rs.EventLoop.Published.Shuttle.{
  ReadResult, eof, would_block, read_error, data_read, Round, Step, received, on_read, is_none,
  may_read, read_host, may_send, taken, delivered, send_namespace, finish_receive, is_drained,
  run_blocks, shuttle,
}

-- The bytes that a round takes from the host.
abbrev pub taken_in : Round → ConnectionContext → Bytes
taken_in round c =
    if may_read c then received (tcp_buf_size - length c.host_to_namespace) round.read else []

-- The bytes that a round hands to the socket, behind its read.
abbrev pub handed_out : Round → ConnectionContext → Bytes
handed_out round c = delivered round (read_host round c).0

abbrev pub held : State → Bytes
held (established c) = c.host_to_namespace
held _ = []

on_read-buffer :
    (r : ReadResult) (c : ConnectionContext)
    → (on_read r c).0.host_to_namespace
      ≡ c.host_to_namespace ++ received (tcp_buf_size - length c.host_to_namespace) r
on_read-buffer eof c = sym (append-nil c.host_to_namespace)
on_read-buffer would_block c = sym (append-nil c.host_to_namespace)
on_read-buffer read_error c = sym (append-nil c.host_to_namespace)
on_read-buffer (data_read b bs) c = refl

read_host-buffer :
    (round : Round) (c : ConnectionContext)
    → (read_host round c).0.host_to_namespace ≡ c.host_to_namespace ++ taken_in round c
unfolding read_host
read_host-buffer round c = elim (Bool-cases (may_read c)) [
  | inl e ↦ rw e (on_read-buffer round.read c)
  | inr e ↦ rw e (sym (append-nil c.host_to_namespace))
]

send_namespace-buffer :
    (round : Round) (s : Step)
    → delivered round s.0 ++ (send_namespace round s).0.host_to_namespace ≡ s.0.host_to_namespace
unfolding send_namespace
send_namespace-buffer round (c, failed) = elim (Bool-cases (may_send round c)) [
  | inl e ↦ rw e (take-append-drop (taken round c) c.host_to_namespace)
  | inr e ↦ rw e refl
]

finish_receive-buffer :
    (round : Round) (s : Step)
    → (finish_receive round s).0.host_to_namespace ≡ s.0.host_to_namespace
unfolding finish_receive
finish_receive-buffer round (c, failed) =
    elim (Bool-cases (not round.may_recv && round.recv_queue_after == 0)) [
      | inl e ↦ rw e refl
      | inr e ↦ rw e refl
    ]

pub run_blocks-buffer :
    (round : Round) (c : ConnectionContext)
    → handed_out round c ++ (run_blocks round c).0.host_to_namespace
      ≡ c.host_to_namespace ++ taken_in round c
unfolding run_blocks
run_blocks-buffer round c =
    ap (◌++◌ (handed_out round c))
      (finish_receive-buffer round (send_namespace round (read_host round c)))
    ∙ send_namespace-buffer round (read_host round c)
    ∙ read_host-buffer round c

received-length : (space : ℕ) (r : ReadResult) → length (received space r) ≤ space
received-length space eof = omega arith
received-length space would_block = omega arith
received-length space read_error = omega arith
received-length space (data_read b bs) = omega (arith, length-take space (b ∷ bs))

taken_in-length :
    (round : Round) (c : ConnectionContext)
    → length c.host_to_namespace ≤ tcp_buf_size
    → length c.host_to_namespace + length (taken_in round c) ≤ tcp_buf_size
taken_in-length round c h = elim (Bool-cases (may_read c)) [
  | inl e ↦
      rw e
        (omega (arith, h, received-length (tcp_buf_size - length c.host_to_namespace) round.read))
  | inr e ↦ rw e (omega (arith, h))
]

-- A round never lets the buffer grow beyond its size.
run_blocks-length :
    (round : Round) (c : ConnectionContext)
    → length c.host_to_namespace ≤ tcp_buf_size
    → length (run_blocks round c).0.host_to_namespace ≤ tcp_buf_size
run_blocks-length round c h = omega (
  arith,
  taken_in-length round c h,
  ap length (run_blocks-buffer round c),
  length-append (handed_out round c) (run_blocks round c).0.host_to_namespace,
  length-append c.host_to_namespace (taken_in round c),
)

-- A number of rounds: what they take from the host, what they hand to the socket, and the state.
abbrev pub relay : List Round → State → Bytes × Bytes × State
relay [] s = ([], [], s)
relay (round ∷ rounds) (established c) =
    let (more_in, more_out, t) = relay rounds (shuttle round c) in
    (taken_in round c ++ more_in, handed_out round c ++ more_out, t)
relay (round ∷ rounds) s = ([], [], s)

abbrev pub IsBounded : State → Type 0
IsBounded s = length (held s) ≤ tcp_buf_size

shuttle-IsBounded :
    (round : Round) (c : ConnectionContext)
    → length c.host_to_namespace ≤ tcp_buf_size
    → IsBounded (shuttle round c)
unfolding shuttle
shuttle-IsBounded round c h =
    elim (Bool-cases (
      (run_blocks round c).1
      || is_over round.state_after
      || is_drained round (run_blocks round c).0)) [
        | inl e ↦ rw e (omega arith)
        | inr e ↦ rw e (run_blocks-length round c h)
      ]

-- However many rounds there are, a connection never holds more than the size of its buffer.
pub relay-IsBounded : (rounds : List Round) (s : State) → IsBounded s → IsBounded (relay rounds s).2
relay-IsBounded [] s h = h
relay-IsBounded (round ∷ rounds) (established c) h =
    relay-IsBounded rounds (shuttle round c) (shuttle-IsBounded round c h)
relay-IsBounded (round ∷ rounds) (connecting stream peer created) h = h
relay-IsBounded (round ∷ rounds) closing h = h
