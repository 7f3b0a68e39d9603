-- ===== src/Tests/Loop.antt =====
-- An iteration of the event loop without rules: a SYN arrives, and a published port takes a stream.
use nsproxy_rs.Base.{
  ok, length, ℕ, ◌≡◌, refl, sym, ◌∙◌, Exec, Option, Bool, inl, inr, arith, true, false, [], ◌∷◌,
  none, some, ret,
}
use nsproxy_rs.Base.Text.{codes, split, split_once}
use nsproxy_rs.Base.Map.{get}
use nsproxy_rs.Namespace.Binds.{FileSystem, regular, parse_bind_mounts}
use nsproxy_rs.Startup.Options.{Cli, build_config}
use nsproxy_rs.Startup.Options.Loop.{run-build_config}
use nsproxy_rs.Publish
use nsproxy_rs.Std.Number.{parse_uint, parse_digits}
use nsproxy_rs.Proxy
use nsproxy_rs.Publish.{parse_publish_specs, parse_specs_from, parse_publish_spec, parse_port}
use nsproxy_rs.Rule.{from_specs, build, finish, compile, empty_builder}
use nsproxy_rs.PrefixTrie
use nsproxy_rs.Proxy.{domain, ip, direct}
use nsproxy_rs.Config.{Config}
use nsproxy_rs.Tun.{TunDevice, packet, poll_read, parse_tcp_syn}
use nsproxy_rs.EventLoop.Socket.{established}
use nsproxy_rs.EventLoop.Published.Shuttle.{would_block}
use nsproxy_rs.EventLoop.Tick.{Inputs, EventLoop, read_all}
use nsproxy_rs.EventLoop.Outbound.{
  pending, poll_connecting, EndpointKey, OutboundTcp, observe_key, observe, contains_key,
}
use nsproxy_rs.EventLoop.Outbound
use nsproxy_rs.EventLoop.Outbound.Forward.{write_blocked}
use nsproxy_rs.EventLoop.Outbound.Observe.{IsFresh}
use nsproxy_rs.EventLoop.Tick.Valid.{IsNew, FreshListened}
use nsproxy_rs.EventLoop.Outbound.Ready.{Interest}
use nsproxy_rs.EventLoop.Outbound.Ready
use nsproxy_rs.EventLoop.Published.Ready as PublishedReady
use nsproxy_rs.EventLoop.Run.{
  Wake, Round, poll_select, select, wait_timeout, wait_for_work, run, new,
}
use nsproxy_rs.EventLoop.Run.Valid.{RunFresh, PartsValid}
use nsproxy_rs.EventLoop.Run.Timely.{wait_for_work_ends}
use nsproxy_rs.Tun.Syn.{syn_bytes, parse_tcp_syn-syn_bytes}
use nsproxy_rs.Tests.Outbound.{exact}
use nsproxy_rs.Tests.Tcp.{syn, syn-IsSyn, syn_key, accepted}

abbrev no_rules : Config exact
no_rules = record {
  default_proxy = direct;
  bind_mounts = [];
  publishes = record { host_ip = 0; host_port = 8080; namespace_port = 80 } ∷ [];
  command = codes "id" ∷ [];
  rules = record { domains = none; domain_actions = []; cidr_trie = PrefixTrie.default };
}

abbrev first : Inputs
first = record {
  now = 10;
  reads = packet (syn_bytes syn) ∷ packet (syn_bytes syn) ∷ [];
  listen = λ n. some 5;
  accepted = (accepted, some 3) ∷ [];
  taken = 1;
  taken_after = 0;
  received = [];
  listeners = λ h. record { state = established; local = none };
  forwards = λ h. record {
    may_recv_before = true;
    can_recv = false;
    recv_data = [];
    write = write_blocked;
    read = would_block;
    can_send = true;
    send_queue = 0;
    send_result = none;
    send_queue_after = 0;
    may_recv = true;
    may_send_after = true;
  };
  tcp = λ h. established;
  shuttles = λ h. record {
    read = would_block;
    can_send = true;
    send_queue = 0;
    send_result = none;
    write_failed = false;
    may_recv = true;
    recv_queue_after = 0;
    send_queue_after = 0;
    state_after = established;
  };
}

abbrev idle : Interest
idle = record { read_ready = false; write_ready = false; can_recv = false }

-- Nothing happens for `elapsed` milliseconds, but for the device.
abbrev wake : Bool → ℕ → Wake
wake readable elapsed = record {
  shutdown_changed = false;
  tasks = λ h. pending;
  tcp = λ h. established;
  outbound_io = λ h. idle;
  accepted = false;
  published_io = λ h. idle;
  device_readable = readable;
  elapsed = elapsed;
}

abbrev round : Round
round = record {
  shutdown = false;
  poll_delay = some 5000;
  wakes = wake false 40 ∷ wake true 60 ∷ [];
  shutdown_after = false;
  inputs = first;
}

abbrev syn_twice : TunDevice
syn_twice = syn_bytes syn ∷ syn_bytes syn ∷ []

abbrev heard : OutboundTcp
heard = observe_key 10 syn_key (some 5) Outbound.new

syn_parsed : parse_tcp_syn (syn_bytes syn) ≡ ret (some syn_key)
syn_parsed = parse_tcp_syn-syn_bytes syn syn-IsSyn

known_now : contains_key syn_key heard.listening_endpoints ≡ true
unfolding observe_key
known_now = refl

heard_first : observe 10 (syn_bytes syn) (some 5) Outbound.new ≡ ret heard
unfolding observe
heard_first = rw syn_parsed refl

-- For the copy of the SYN nothing is listened on.
copy-IsFresh :
    (s : OutboundTcp)
    → observe 10 (syn_bytes syn) (some 5) Outbound.new ≡ ret s
    → IsNew (syn_bytes syn) s
    → IsFresh (some 5) s
copy-IsFresh s h (key, parsed, unheard) =
    let same : heard ≡ s = injective (sym heard_first ∙ h) in
    let same_key : syn_key ≡ key = unwrapped (sym syn_parsed ∙ parsed) in
    let unknown : contains_key syn_key heard.listening_endpoints ≡ false =
      rw (same, same_key) unheard in
    let differ : true ≡ false = sym known_now ∙ unknown in absurd (cc)
  where
    injective : {a b : OutboundTcp} → Path (Exec OutboundTcp) (ret a) (ret b) → a ≡ b
    injective e = cc

    unwrapped :
        {a b : EndpointKey} → Path (Exec (Option EndpointKey)) (ret (some a)) (ret (some b)) → a ≡ b
    unwrapped e = cc

syns-Fresh : FreshListened 10 (λ n. some 5) syn_twice Outbound.new
unfolding get
syns-Fresh = (λ n. refl, λ s h. (copy-IsFresh s h, λ s' h'. tt))

round-RunFresh : RunFresh exact (round ∷ []) (new exact no_rules)
unfolding new read_all poll_read get wait_for_work select poll_select wait_timeout Ready.poll_ready
    poll_connecting PublishedReady.poll_ready
round-RunFresh = ((syns-Fresh, (refl, tt)), λ e h. tt)

abbrev all_files : FileSystem
all_files path = ok (record { file_type = regular; dev = 1; ino = length path })

abbrev cli : Cli
cli = record {
  proxy = codes "direct";
  rules = [];
  binds = [];
  publishes = codes "8080:80" ∷ [];
  command = codes "id" ∷ [];
}

cli_accepted : build_config exact all_files (ok (codes "/root")) cli ≡ ok no_rules
unfolding build_config Proxy.parse from_specs build finish compile empty_builder parse_bind_mounts
    parse_publish_specs parse_specs_from parse_publish_spec split_once Publish.parse_fields split
    parse_port parse_uint parse_digits
cli_accepted = refl

run-build_config_example :
    (e : EventLoop exact) × (run exact (round ∷ []) (new exact no_rules) ≡ ret e)
    × PartsValid exact e
run-build_config_example =
    run-build_config exact all_files (ok (codes "/root")) cli no_rules (round ∷ []) cli_accepted
      round-RunFresh

abbrev quiet_round : Round
quiet_round = record round { wakes = wake false 40 ∷ wake false 100 ∷ [] }

wait_for_work_ends_example : (wait_for_work exact quiet_round (new exact no_rules)).1 ≡ some true
wait_for_work_ends_example =
    wait_for_work_ends exact quiet_round (new exact no_rules) (inr (inl (omega arith)))
