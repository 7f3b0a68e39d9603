-- ===== src/Tests/Outbound.antt =====
-- An outbound connection that listens for its SYN, and one that relays.
use nsproxy_rs.Base.{[], ◌∷◌, ◌≡◌, refl, true, List, some, Bytes, bytes_beq, nat_eq}
use nsproxy_rs.Base.Map.{get}
use nsproxy_rs.Rule.{Regex, positions}
use nsproxy_rs.EventLoop.Outbound
use nsproxy_rs.EventLoop.Outbound.{OutboundTcp, EndpointKey, observe_key}
use nsproxy_rs.EventLoop.Outbound.{ForwardContext, open_read}
use nsproxy_rs.EventLoop.Published.Shuttle.{data_read}
use nsproxy_rs.EventLoop.Outbound.Forward.{Round, wrote}
use nsproxy_rs.EventLoop.Outbound.Listeners.{IsValid}
use nsproxy_rs.EventLoop.Outbound.Reach.{Reached, start, observe_step, Reached-IsValid}

pub same_set : (patterns set : List Bytes) → some patterns ≡ some set → patterns ≡ set
same_set patterns set e = cc

-- A regex library in which a pattern matches its own text only.
abbrev pub exact : Regex
exact = record {
  Set = List Bytes;
  is_valid = λ p. true;
  escape = λ d. d;
  is_match = bytes_beq;
  new_set = λ ps. some ps;
  matches = λ set host. positions (λ p. bytes_beq p host) 0 set;
  matches_lem = λ patterns set host e. rw (same_set patterns set e) refl;
}

abbrev key : EndpointKey
key = (2887253247, 51200, 3323068417, 443)

one_listener-Reached : Reached exact (observe_key 0 key (some 3) Outbound.new)
unfolding get
one_listener-Reached = observe_step 0 key (some 3) Outbound.new start refl

Reached-IsValid_example : IsValid (observe_key 0 key (some 3) Outbound.new)
Reached-IsValid_example =
    Reached-IsValid exact (observe_key 0 key (some 3) Outbound.new) one_listener-Reached

abbrev context : ForwardContext
context = record { stream = 1; proxy_to_app = 65 ∷ []; proxy_read_state = open_read }

abbrev round : Round
round = record {
  may_recv_before = true;
  can_recv = true;
  recv_data = 71 ∷ 69 ∷ 84 ∷ [];
  write = wrote 2;
  read = data_read 66 (67 ∷ []);
  can_send = true;
  send_queue = 0;
  send_result = some 2;
  send_queue_after = 2;
  may_recv = true;
  may_send_after = true;
}
