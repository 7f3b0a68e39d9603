-- ===== src/Lib.antt =====
-- nsproxy runs a command in a network namespace and sends its TCP connections through proxies. A
-- TUN device carries the packets to a user-space TCP/IP stack; names are answered with synthetic
-- addresses, so that a connection can be opened by name at the proxy; rules select the route; host
-- ports can be published into the namespace.
--
-- The files and the code they model:
--
-- FakeDns is `FakeDns` of src/fake_dns.rs, the pool of synthetic addresses: `resolve` with its
-- fast path (get), its slow path (allocate) and the eviction of a slot (evict), `lookup` and
-- `is_fake_ip`. FakeDns.Invariant and FakeDns.Lifetime hold its theorems. DnsPacket is the packet
-- code of the same file, `parse_query`, `encode_name` and the two builders of responses.
--
-- PrefixTrie and Rule are src/rule.rs: `PrefixTrie`, `RuleMatch::parse` (parse_match),
-- `RuleMatcher::from_specs` (from_specs, by build and finish) and the two matchers. The regex
-- crate is the parameter Regex: its one law is that a pattern set reports, in ascending order, the
-- positions of its patterns that match.
--
-- Config is src/config.rs: `Config` and `proxy_for`; Config.Net has the constants of
-- `config::net`.
--
-- Proxy is src/proxy/mod.rs: `ProxyConfig::parse` and the two `Display` instances. Proxy.Connect
-- is `ProxyConfig::connect` with `connect_inner` and src/proxy/direct.rs. Proxy.Stream is
-- `ProxyStream` and the TCP connection under the handshakes. Proxy.Socks5 is src/proxy/socks5.rs
-- and Proxy.Http is src/proxy/http.rs, one function for each of the source. Proxy.Wire writes out,
-- by the RFCs and apart from the code, what a client sends for a connection to a name. Std.Number,
-- Std.Address and Std.Display are what these files use of `core::net` and of `str::parse`.
--
-- Publish is src/publish.rs; the sockets of the system are parameters, and Publish.Texts writes
-- out the texts that stand for a publication. Tun is src/tun.rs: the queue of the device and
-- `parse_tcp_syn`.
--
-- EventLoop is src/event_loop.rs and src/event_loop: Tick is one iteration of the loop (tick) over
-- the states of its four parts, Run the loop with its waits (wait_for_work, run, EventLoop::new),
-- Outbound.Ready and Published.Ready the two `poll_ready`. Dns is the interceptor of dns.rs
-- (process, target_for), Ports and Published are published.rs (PortAllocator, attach_accepted,
-- poll_connecting, shuttle_established, cleanup), Outbound is outbound.rs (observe_syns,
-- update_listeners, poll_connecting, shuttle_established, cleanup), Socket the states of a smoltcp
-- socket. DNS, rules, device and listeners meet in Outbound: a SYN seen by Tun makes a listener,
-- whose target comes from Dns and whose route from Config; Outbound.Tunnel follows such a
-- connection through the handshake.
--
-- Sys is code that makes system calls. Namespace is src/namespace.rs: Net has create_namespace,
-- write_id_maps, bringup_loopback and create_tun, Mounts the set-up of the mount namespace and the
-- bind mounts, Binds `parse_bind_mounts`, Resources what a run of calls leaves open, Mounts.Table
-- what it has mounted and what is seen there.
--
-- Startup is src/main.rs: Options has the configuration that `main` builds (build_config), then
-- child_main and parent_main up to the ready signal (parent_setup), and in Supervise what the
-- parent does until the child has ended. Startup.Handshake puts parent and child together. Process
-- is src/process.rs: Process.Command has `run_command_tree` and `exec_command`, Process the search
-- through /proc (descendants), and in Process.Reaper `signal_descendants`, `forward_signal` and
-- `wait_for_command_tree`.
--
-- Base has the shared names: byte strings, lists over the native numbers, results, maps as
-- association lists, and the functions of `str` on UTF-8 bytes. Tests has concrete inputs.
--
-- Representation: text is its UTF-8 bytes, an IPv4 address its 32-bit number with the wrap-around
-- of `u32` written out, a `HashMap` an association list, a `HashSet` a list. Handles, streams and
-- peers are numbers. Code that may panic has the type Exec or Parse, so that an index out of range
-- is a value, `panic`. What smoltcp, Tokio and the system answer (states of sockets, bytes that
-- have arrived, results of reads, writes and of binding) is an input of the operations.
--
-- System calls: a kernel is a function that answers each call from the calls before it, so a
-- theorem about every kernel covers every sequence of successes and failures. A program returns a
-- result or a failure together with the trace of its calls. Parent and child of the start-up run
-- under kernels of their own; that the channel delivers what was sent, in order, is a hypothesis.
-- A network gives a connection or none for each destination. What /proc shows, what waitpid
-- answers, the clock and each poll of a `select` are inputs.
--
-- Fuel: `parse_query` runs its loop on the length of the datagram plus one, and every round moves
-- forward; `read_line` and the loop over the headers run on the bytes still pending, and every
-- round takes one or ends; the port allocator runs on the size of its range, as the code does.
-- `read_control_byte` takes a unit for each interrupted read, and the theorems hold for every
-- amount. The search of `signal_descendants` has more units than there are process ids, which is
-- enough since no process is visited twice. That the fuel is enough is proved with each function.
--
-- Not modelled: the command line (clap), the log, the fork of `main`, the messages of descriptor
-- passing, the accept tasks of published ports, and the write of packets to the device. They are
-- system calls and calls of Tokio, clap and smoltcp. In the event loop the panics of
-- `SocketSet::get` on an unknown handle, of `states[&handle]`, of `unwrap` and of `unreachable!`
-- are left out: an operation passes over the entries of its own table, so that the entry is there,
-- and that smoltcp still has the socket is not stated. The answer of a proxy is a finite sequence
-- of bytes and then the end of the stream; a proxy that stalls or answers for ever is the time-out
-- of Proxy.Connect. For published connections the bytes that the namespace sends are only the
-- result of the write to the host.
pub mod Base
pub mod FakeDns
pub mod DnsPacket
pub mod Std
pub mod Proxy
pub mod PrefixTrie
pub mod Rule
pub mod Config
pub mod Tun
pub mod EventLoop
pub mod Publish
pub mod Sys
pub mod Namespace
pub mod Startup
pub mod Process
pub mod Tests
