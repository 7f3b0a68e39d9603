-- ===== src/Startup.antt =====
-- src/main.rs: the two processes of the start-up, which talk over a socket pair until the command is
-- run. Each retry of an interrupted read takes one unit of `fuel`.
pub mod Channel
pub mod Child
pub mod Maps
pub mod Acknowledge
pub mod Prepare
pub mod Parent
pub mod Handshake
pub mod Supervise
pub mod Options
use Prim.Native.String.{String}
use nsproxy_rs.Base.{ℕ, zero, suc, Bool, true, false, List, [], ◌∷◌, Bytes, ◌==◌, if◌then◌else◌}
use nsproxy_rs.Sys.{
  Answer, done, failed, ◌>>=◌, ◌>>◌, pure, bail, perform, attempt, require, ignore,
}
use nsproxy_rs.Namespace.{
  Call, close, read_byte, write, send_fd, recv_fd, getuid, getgid, bind_publish_specs,
  build_runtime, register_publish_specs, listen, run_command_tree, Failure, system, message,
  panicked, out_of_fuel, Setup,
}
use nsproxy_rs.Namespace.Net.{create_namespace, write_id_maps, bringup_loopback, create_tun}
use nsproxy_rs.Namespace.Mounts.{BindMount, setup_mount_namespace}

abbrev pub eintr : ℕ
eintr = 4

-- The only element of the buffer, which was zero before the call.
abbrev pub first_byte : Bytes → ℕ
first_byte [] = 0
first_byte (b ∷ bs) = b

pub after_read : Setup ℕ → String → Answer → Setup ℕ
after_read retry label (done n bytes) =
    if n == 1
    then pure (first_byte bytes)
    else if n == 0
    then bail (message label)
    else bail panicked
after_read retry label (failed errno) = if errno == eintr then retry else bail (system label errno)

-- `label` stands for the message of the end of file and for the context of an error.
unfoldable pub read_control_byte : ℕ → ℕ → String → Setup ℕ
unfolding after_read
read_control_byte zero sock label = bail out_of_fuel
read_control_byte (suc fuel) sock label =
    perform (read_byte sock) >>= after_read (read_control_byte fuel sock label) label

expect_one : String → ℕ → Setup (Unit {0})
expect_one e byte = if byte == 1 then pure tt else bail (message e)

wait_for_maps : ℕ → ℕ → Bool → Setup (Unit {0})
unfolding expect_one
wait_for_maps fuel sock false = pure tt
wait_for_maps fuel sock true = do
  ack ← read_control_byte fuel sock "maps-done acknowledgement"
  expect_one "invalid maps-done acknowledgement byte" ack

-- The child, up to the exit code of the command.
unfoldable pub child_main : ℕ → ℕ → List BindMount → List Bytes → Setup ℕ
unfolding wait_for_maps expect_one
child_main fuel sock binds command = do
  needs_maps ← create_namespace
  require (write sock ((if needs_maps then 1 else 0) ∷ [])) (system "signal parent after unshare")
  wait_for_maps fuel sock needs_maps
  bringup_loopback
  tun_fd ← create_tun
  setup_mount_namespace binds
  require (send_fd sock tun_fd) (system "send_fd")
  ready ← read_control_byte fuel sock "ready signal"
  expect_one "invalid ready signal byte" ready
  ignore (close sock)
  ignore (close tun_fd)
  attempt (run_command_tree command) (system "run command tree")

needs_maps_of : ℕ → Setup Bool
needs_maps_of signal =
    if signal == 0
    then pure false
    else if signal == 1
    then pure true
    else bail (message "invalid unshare signal byte")

-- `getuid` and `getgid` cannot fail.
pub map_ids : ℕ → ℕ → Bool → Setup (Unit {0})
map_ids sock child false = pure tt
map_ids sock child true = do
  uid ← attempt getuid (system "getuid")
  gid ← attempt getgid (system "getgid")
  write_id_maps child uid gid
  require (write sock (1 ∷ [])) (system "signal child maps done")

abbrev sigterm : ℕ
sigterm = 15

abbrev sigint : ℕ
sigint = 2

abbrev sighup : ℕ
sighup = 1

-- What the parent does before it releases the child: every step of the start-up that can fail.
pub prepare : Setup (Unit {0})
prepare = do
  require bind_publish_specs (system "bind --publish")
  require build_runtime (system "build tokio runtime")
  require register_publish_specs (system "register --publish")
  require (listen sigterm) (system "listen for SIGTERM")
  require (listen sigint) (system "listen for SIGINT")
  require (listen sighup) (system "listen for SIGHUP")

-- The parent up to the ready signal; the descriptor of the TUN device is its result.
unfoldable pub parent_setup : ℕ → ℕ → ℕ → Setup ℕ
unfolding needs_maps_of map_ids prepare
parent_setup fuel sock child = do
  unshare_signal ← read_control_byte fuel sock "unshare signal from child"
  needs_maps ← needs_maps_of unshare_signal
  map_ids sock child needs_maps
  tun_fd ← attempt (recv_fd sock) (system "recv_fd")
  prepare
  require (write sock (1 ∷ [])) (system "write ready signal")
  pure tun_fd
