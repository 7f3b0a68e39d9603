-- ===== src/Namespace/Net.antt =====
-- src/namespace.rs: the network namespace, the maps of user and group, loopback and the TUN device.
pub mod Descriptors
use nsproxy_rs.Base.{
  ℕ, ◌+◌, Bool, true, false, [], ◌∷◌, ◌++◌, Bytes, length, leb, ◌==◌, if◌then◌else◌,
}
use nsproxy_rs.Base.Text.{codes}
use nsproxy_rs.Std.Number.{decimal}
use nsproxy_rs.Sys.{
  Answer, done, failed, ◌>>=◌, ◌>>◌, pure, bail, perform, checked, attempt, require, ignore,
}
use nsproxy_rs.Config.Net.{tun_name, tun_addr, tun_gw, tun_prefix, tun_mtu}
use nsproxy_rs.Namespace.{
  Call, unshare, new_net, new_user, open_file, socket, ioctl, close, write_all, Request,
  tun_set_iff, set_mtu, set_addr, set_netmask, set_flags, add_route, Failure, system, message,
  Setup, if_namesize, zero_extended, ifreq_for, netmask_octets, to_be_bytes,
}

fallback : Answer → Setup Bool
fallback (done n bytes) = pure false
fallback (failed errno) = do
  require (unshare (new_user ∷ new_net ∷ [])) (system "unshare(CLONE_NEWUSER|CLONE_NEWNET)")
  pure true

-- Whether a user namespace was created, so that the parent must write its maps.
unfoldable pub create_namespace : Setup Bool
unfolding fallback
create_namespace = perform (unshare (new_net ∷ [])) >>= fallback

-- The file is closed when it goes out of scope, after a failed write too.
unfoldable pub proc_write : Bytes → Bytes → Setup (Unit {0})
proc_write path content = do
  f ← attempt (open_file path) (system "open")
  written ← perform (write_all f content)
  ignore (close f)
  checked (system "write") written >>= λ n. pure tt

-- "<id> <id> 1": the identity is mapped to itself.
abbrev pub id_map : ℕ → Bytes
id_map id = decimal id ++ b' ' ∷ decimal id ++ codes " 1\n"

abbrev pub proc_path : ℕ → Bytes → Bytes
proc_path pid file = codes "/proc/" ++ decimal pid ++ b'/' ∷ file

unfoldable pub write_id_maps : ℕ → ℕ → ℕ → Setup (Unit {0})
unfolding proc_write
write_id_maps child_pid uid gid = do
  proc_write (proc_path child_pid (codes "setgroups")) (codes "deny")
  proc_write (proc_path child_pid (codes "uid_map")) (id_map uid)
  proc_write (proc_path child_pid (codes "gid_map")) (id_map gid)

abbrev iff_up : ℕ
iff_up = 0x1

abbrev iff_running : ℕ
iff_running = 0x40

abbrev iff_tun : ℕ
iff_tun = 0x1

abbrev iff_no_pi : ℕ
iff_no_pi = 0x1000

abbrev eperm : ℕ
eperm = 1

-- A missing permission gets a hint on the restriction of user namespaces by AppArmor.
loopback_failed : ℕ → Failure
loopback_failed errno =
    if errno == eperm
    then system "ioctl SIOCSIFFLAGS lo, hint: apparmor_restrict_unprivileged_userns" errno
    else system "ioctl SIOCSIFFLAGS lo" errno

loopback_up : ℕ → Answer → Setup (Unit {0})
unfolding loopback_failed
loopback_up sock (done n bytes) = ignore (close sock)
loopback_up sock (failed errno) = do ignore (close sock); bail (loopback_failed errno)

unfoldable pub bringup_loopback : Setup (Unit {0})
unfolding loopback_up
bringup_loopback = do
  sock ← attempt socket (system "socket() for loopback")
  answer ←
      perform
        (ioctl sock (set_flags (zero_extended if_namesize (codes "lo")) (iff_up + iff_running)))
  loopback_up sock answer

-- `close(sock); close(fd); bail!`, where no close changes the error number.
close_both : ℕ → ℕ → Failure → Setup (Unit {0})
close_both sock fd e = do ignore (close sock); ignore (close fd); bail e

or_close : ℕ → ℕ → (ℕ → Failure) → Answer → Setup (Unit {0})
unfolding close_both
or_close sock fd e (done n bytes) = pure tt
or_close sock fd e (failed errno) = close_both sock fd (e errno)

-- One request of the configuration: a failure closes both descriptors.
configure : ℕ → ℕ → Request → (ℕ → Failure) → Setup (Unit {0})
unfolding or_close
configure sock fd request e = perform (ioctl sock request) >>= or_close sock fd e

abbrev pub name_buf : Bytes
name_buf = zero_extended if_namesize tun_name

with_socket : ℕ → Answer → Setup ℕ
unfolding configure
with_socket fd (failed errno) = do ignore (close fd); bail (system "socket() for tun config" errno)
with_socket fd (done sock bytes) = do
  configure sock fd (set_mtu name_buf tun_mtu) (system "ioctl SIOCSIFMTU")
  configure sock fd (set_addr name_buf tun_addr) (system "ioctl SIOCSIFADDR")
  configure sock fd (set_netmask name_buf (netmask_octets tun_prefix))
      (system "ioctl SIOCSIFNETMASK")
  configure sock fd (set_flags name_buf (iff_up + iff_running)) (system "ioctl SIOCSIFFLAGS UP")
  configure sock fd (add_route tun_gw name_buf) (system "ioctl SIOCADDRT")
  ignore (close sock)
  pure fd

with_device : ℕ → Answer → Setup ℕ
unfolding with_socket
with_device fd (failed errno) = do ignore (close fd); bail (system "ioctl TUNSETIFF" errno)
with_device fd (done n bytes) = perform socket >>= with_socket fd

unfoldable pub create_tun : Setup ℕ
unfolding with_device
create_tun =
    if leb if_namesize (length tun_name)
    then bail (message "configured TUN_NAME exceeds IF_NAMESIZE")
    else do
      fd ← attempt (open_file (codes "/dev/net/tun")) (system "open /dev/net/tun")
      answer ← perform (ioctl fd (tun_set_iff (ifreq_for tun_name) (iff_tun + iff_no_pi)))
      with_device fd answer
