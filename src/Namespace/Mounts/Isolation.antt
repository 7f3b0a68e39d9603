-- ===== src/Namespace/Mounts/Isolation.antt =====
-- src/namespace.rs: mounts happen in a private mount namespace only, the files of the resolver first.
use nsproxy_rs.Base.{
  ℕ, ◌≡◌, ◌≤◌, Bool, true, false, ◌&&◌, ◌||◌, List, [], ◌∷◌, Bytes, bytes_beq, ◌⊎◌, leb,
  if◌then◌else◌, max,
}
use nsproxy_rs.Base.Text.{codes}
use nsproxy_rs.Sys.{done, Kernel, ignore}
use nsproxy_rs.Namespace.{
  CloneFlag, new_ns, Call, Calls, Setup, rec_private, bind, tmpfs, unshare, mount, move_mount,
}
use nsproxy_rs.Namespace.Mounts.Table.{Content, unchanged, empty_directory, text, object, mounted}
use nsproxy_rs.Namespace.Mounts.{BindMount}

is_new_ns : CloneFlag → Bool
is_new_ns new_ns = true
is_new_ns _ = false

has_new_ns : List CloneFlag → Bool
unfolding is_new_ns
has_new_ns [] = false
has_new_ns (f ∷ flags) = is_new_ns f || has_new_ns flags

-- 1 from the creation of a mount namespace on, 2 once its root does not propagate to the host.
unfoldable pub isolation : Calls → ℕ
unfolding has_new_ns
isolation [] = 0
isolation ((unshare flags, done n bytes) ∷ t) =
    if has_new_ns flags then max 1 (isolation t) else isolation t
isolation ((mount rec_private source target, done n bytes) ∷ t) =
    if bytes_beq target (codes "/") && leb 1 (isolation t) then 2 else isolation t
isolation (_ ∷ t) = isolation t

-- No call can change a mount table that the host sees.
unfoldable pub IsIsolated : Calls → Type 0
IsIsolated [] = Unit
IsIsolated ((mount rec_private source target, answer) ∷ t) = (1 ≤ isolation t) × IsIsolated t
IsIsolated ((mount bind source target, answer) ∷ t) = (2 ≤ isolation t) × IsIsolated t
IsIsolated ((mount tmpfs source target, answer) ∷ t) = (2 ≤ isolation t) × IsIsolated t
IsIsolated ((move_mount fd target, answer) ∷ t) = (2 ≤ isolation t) × IsIsolated t
IsIsolated (_ ∷ t) = IsIsolated t

unfoldable pub binds_onto : List BindMount → List (Bytes × Content) → List (Bytes × Content)
binds_onto [] mounts = mounts
binds_onto (b ∷ bs) mounts = binds_onto bs ((b.target, object b.source) ∷ mounts)

-- The private root, and the files of the resolver on it: the name server is the gateway, and hosts are
-- looked up in files and by DNS.
abbrev pub resolver_onto : List (Bytes × Content) → List (Bytes × Content)
resolver_onto mounts =
    (codes "/etc/nsswitch.conf", text (codes "hosts: files dns\n"))
    ∷ (codes "/etc/resolv.conf", text (codes "nameserver 172.23.255.254\n"))
    ∷ (codes "/", unchanged)
    ∷ mounts

pub record Inside (mounts : List (Bytes × Content)) (t : Calls) : Type 0 where
  pub private_root : 2 ≤ isolation t
  pub isolated : IsIsolated t
  pub done_so_far : mounted t ≡ mounts

-- What has been mounted when the set-up succeeds: the private root, the two files of the resolver with
-- their texts, the sources of the user over their targets in order, and over these the empty directory,
-- if that succeeded.
abbrev pub Finished : List BindMount → Calls → Calls → Type 0
Finished binds t t' =
    let all = binds_onto binds (resolver_onto (mounted t)) in
    IsIsolated t'
    × ((mounted t' ≡ all) ⊎ (mounted t' ≡ (codes "/etc/ssh/ssh_config.d", empty_directory) ∷ all))

module _ (k : Kernel Call) where
  abbrev hide_ssh_config : Setup (Unit {0})
  hide_ssh_config = ignore (mount tmpfs (codes "tmpfs") (codes "/etc/ssh/ssh_config.d"))

  abbrev Namespaced : List (Bytes × Content) → Calls → Type 0
  Namespaced m t = (1 ≤ isolation t) × IsIsolated t × (mounted t ≡ m)
