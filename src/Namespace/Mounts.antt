-- ===== src/Namespace/Mounts.antt =====
-- src/namespace.rs: the mount namespace, the files of the resolver and the bind mounts of the user.
pub mod Steps
pub mod Cleanup
pub mod Table
pub mod Isolation
use nsproxy_rs.Base.{ℕ, Bool, true, false, not, List, [], ◌∷◌, ◌++◌, Bytes, ◌==◌, if◌then◌else◌}
use nsproxy_rs.Base.Text.{codes, contains, is_utf8}
use nsproxy_rs.Std.Display.{display_ipv4}
use nsproxy_rs.Sys.{
  Answer, done, failed, ◌>>=◌, ◌>>◌, pure, bail, perform, checked, require, ignore,
}
use nsproxy_rs.Config.Net.{dns_addr}
use nsproxy_rs.Namespace.{
  Call, unshare, new_ns, close, write_all, set_permissions, mkstemp, unlink, mount, rec_private,
  bind, tmpfs, open_tree, move_mount, Failure, system, message, Setup,
}

-- Both paths are absolute.
pub record BindMount : Type 0 where
  pub source : Bytes
  pub target : Bytes

-- `CString::new` fails on a NUL byte.
c_string : Bytes → Failure → Setup (Unit {0})
unfolding contains
c_string path e = if contains 0 path then bail e else pure tt

abbrev enosys : ℕ
enosys = 38

open_failed : ℕ → Failure
open_failed errno =
    if errno == enosys
    then system "file bind mounts require Linux 5.2 or newer: open_tree is unavailable" errno
    else system "open bind-mount source object" errno

move_failed : ℕ → Failure
move_failed errno =
    if errno == enosys
    then system "file bind mounts require Linux 5.2 or newer: move_mount is unavailable" errno
    else system "attach bind-mount source over target" errno

-- The descriptor of the detached mount is closed on both ways out.
attach : Bytes → Answer → Setup (Unit {0})
unfolding open_failed move_failed
attach target (failed errno) = bail (open_failed errno)
attach target (done mount_fd bytes) = do
  moved ← perform (move_mount mount_fd target)
  ignore (close mount_fd)
  checked move_failed moved >>= λ n. pure tt

unfoldable pub bind_mount_nofollow : BindMount → Setup (Unit {0})
unfolding c_string attach
bind_mount_nofollow b = do
  c_string b.source (message "bind mount source contains a NUL byte")
  c_string b.target (message "bind mount target contains a NUL byte")
  opened ← perform (open_tree b.source)
  attach b.target opened

-- The answer of a call after which the guard unlinks the file.
unlink_after : Bytes → (ℕ → Failure) → Answer → Setup (Unit {0})
unlink_after path e answer = do ignore (unlink path); checked e answer >>= λ n. pure tt

mount_over : Bytes → Bytes → Setup (Unit {0})
unfolding unlink_after is_utf8
mount_over path target =
    if is_utf8 path
    then perform (mount bind path target) >>= unlink_after path (system "bind-mount")
    else do ignore (unlink path); bail (message "temp path not utf8")

-- The file is dropped, which closes it, before the guard.
drop_both : ℕ → Bytes → Failure → Setup (Unit {0})
drop_both fd path e = do ignore (close fd); ignore (unlink path); bail e

make_readable : ℕ → Bytes → Bytes → Answer → Setup (Unit {0})
unfolding drop_both mount_over
make_readable fd path target (failed errno) =
    drop_both fd path (system "make internal DNS configuration readable by all users" errno)
make_readable fd path target (done n bytes) = do ignore (close fd); mount_over path target

fill : ℕ → Bytes → Bytes → Answer → Setup (Unit {0})
unfolding drop_both make_readable
fill fd path target (failed errno) = drop_both fd path (system "write" errno)
fill fd path target (done n bytes) =
    perform (set_permissions fd 0o644) >>= make_readable fd path target

unfoldable pub with_temp : Bytes → Bytes → Answer → Setup (Unit {0})
unfolding fill
with_temp content target (failed errno) = bail (system "mkstemp" errno)
with_temp content target (done fd path) = perform (write_all fd content) >>= fill fd path target

-- `mkstemp` answers with the descriptor and the name that it chose.
unfoldable pub bind_mount_tmpfile : Bytes → Bytes → Setup (Unit {0})
unfolding with_temp
bind_mount_tmpfile content target =
    perform (mkstemp (codes "/tmp/nsproxy-XXXXXX")) >>= with_temp content target

unfoldable pub bind_mount_all : List BindMount → Setup (Unit {0})
bind_mount_all [] = pure tt
bind_mount_all (b ∷ bs) = do bind_mount_nofollow b; bind_mount_all bs

abbrev pub resolv_conf : Bytes
resolv_conf = codes "nameserver " ++ display_ipv4 dns_addr ++ codes "\n"

unfoldable pub setup_mount_namespace : List BindMount → Setup (Unit {0})
setup_mount_namespace binds = do
  require (unshare (new_ns ∷ [])) (system "unshare(CLONE_NEWNS)")
  require (mount rec_private [] (codes "/")) (system "make root mount private")
  bind_mount_tmpfile resolv_conf (codes "/etc/resolv.conf")
  bind_mount_tmpfile (codes "hosts: files dns\n") (codes "/etc/nsswitch.conf")
  bind_mount_all binds
  ignore (mount tmpfs (codes "tmpfs") (codes "/etc/ssh/ssh_config.d"))
