-- ===== src/Tests/Tcp.antt =====
-- Packets and connections at concrete inputs.
use nsproxy_rs.Base.{ℕ, ◌≡◌, refl, true, false, List, [], ◌∷◌, ◌++◌, none, some, arith, nat_eq}
use nsproxy_rs.Base.Map.{get, insert, remove}
use nsproxy_rs.Base.Text.{codes}
use nsproxy_rs.FakeDns.{u32_from_be_bytes}
use nsproxy_rs.DnsPacket.{be16, return}
use nsproxy_rs.Tun.{parse_tcp_syn, packet}
use nsproxy_rs.Tun.Syn.{SynPacket, IsSyn, syn_bytes, parse_tcp_syn-syn_bytes}
use nsproxy_rs.Tun.Fifo.{Op, read, deliver, run, packets, run-packets}
use nsproxy_rs.EventLoop.Ports.{PortAllocator, is_used, allocate, try_ports}
use nsproxy_rs.EventLoop.Ports.Free.{Allocates, allocate-Allocates}
use nsproxy_rs.EventLoop.Socket
use nsproxy_rs.EventLoop.Socket.{TcpState}
use nsproxy_rs.EventLoop.Published
use nsproxy_rs.EventLoop.Outbound.{EndpointKey}
use nsproxy_rs.EventLoop.Published.{
  AcceptedConnection, ConnectionContext, State, established, closing, PublishedTcp, attach,
  poll_state, poll_connecting, cleanup,
}
use nsproxy_rs.EventLoop.Published.Shuttle.{Round, data_read}
use nsproxy_rs.EventLoop.Published.Relay.{relay, IsBounded, relay-IsBounded}
use nsproxy_rs.EventLoop.Published.Leaks.{IsValid}
use nsproxy_rs.EventLoop.Published.Leaks.Reach.{
  Reachable, start, attach_step, poll_step, Reachable-IsValid, cleanup-released,
}

abbrev pub syn : SynPacket
syn = record {
  words = 5;
  filler = (0, 0, 40, 0, 0, 0, 0, 64);
  checksum = (0, 0);
  source = (172, 23, 255, 255);
  destination = (198, 18, 0, 1);
  options = [];
  source_port = (200, 0);
  destination_port = (1, 187);
  middle = (0, 0, 0, 0, 0, 0, 0, 0, 80);
  flags = 2;
  rest = 0 ∷ 0 ∷ 0 ∷ 0 ∷ 0 ∷ 0 ∷ [];
}

pub syn-IsSyn : IsSyn syn
syn-IsSyn = record {
  short = omega arith;
  options_length = omega arith;
  rest_length = omega arith;
  syn_set = refl;
  ack_clear = refl;
}

abbrev pub syn_key : EndpointKey
syn_key = (u32_from_be_bytes 172 23 255 255, be16 200 0, u32_from_be_bytes 198 18 0 1, be16 1 187)

parse_tcp_syn-syn_bytes_example : parse_tcp_syn (syn_bytes syn) ≡ return syn_key
parse_tcp_syn-syn_bytes_example = parse_tcp_syn-syn_bytes syn syn-IsSyn

abbrev ops : List Op
ops = read (packet (1 ∷ [])) ∷ read (packet (2 ∷ [])) ∷ deliver ∷ []

run-packets_example : (run [] ops).0 ++ (run [] ops).1 ≡ [] ++ packets ops
run-packets_example = run-packets [] ops

abbrev allocator : PortAllocator
allocator = record { next = 65535; used = 65535 ∷ [] }

allocate-Allocates_example : Allocates allocator (allocate allocator)
allocate-Allocates_example =
    allocate-Allocates allocator 49152 (omega arith, omega arith) (omega arith, omega arith) refl

abbrev context : ConnectionContext
context = record {
  stream = 1;
  peer_addr = 2;
  host_to_namespace = codes "AB";
  close_after_drain = false;
}

abbrev round : Round
round = record {
  read = data_read 67 [];
  can_send = true;
  send_queue = 0;
  send_result = some 2;
  write_failed = false;
  may_recv = true;
  recv_queue_after = 0;
  send_queue_after = 2;
  state_after = Socket.established;
}

relay-IsBounded_example : IsBounded (relay (round ∷ []) (established context)).2
relay-IsBounded_example = relay-IsBounded (round ∷ []) (established context) (omega arith)

abbrev pub accepted : AcceptedConnection
accepted = record { stream = 1; peer_addr = 2; namespace_port = 80 }

abbrev one_connection : PublishedTcp
one_connection = attach 0 accepted (some 3) Published.new

one_connection-Reachable : Reachable one_connection
unfolding get
one_connection-Reachable = attach_step 0 accepted (some 3) Published.new start refl

Reachable-IsValid_example : IsValid one_connection
Reachable-IsValid_example = Reachable-IsValid one_connection one_connection-Reachable

abbrev all_closed : ℕ → TcpState
all_closed handle = Socket.closed

abbrev one_closing : PublishedTcp
one_closing = poll_connecting 0 all_closed one_connection

one_closing-IsValid : IsValid one_closing
one_closing-IsValid =
    Reachable-IsValid one_closing (poll_step 0 all_closed one_connection one_connection-Reachable)

one_closing-facts :
    (get 3 one_closing.states ≡ some closing) × (get 3 one_closing.handle_to_port ≡ some 49152)
unfolding poll_connecting poll_state attach allocate try_ports get insert remove
one_closing-facts = (refl, refl)

cleanup-released_example :
    (get 3 (cleanup one_closing).states ≡ none)
    × (is_used 49152 (cleanup one_closing).ports.used ≡ false)
cleanup-released_example =
    cleanup-released one_closing 3 49152 one_closing-IsValid one_closing-facts.0 one_closing-facts.1
