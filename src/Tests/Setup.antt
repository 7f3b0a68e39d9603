-- ===== src/Tests/Setup.antt =====
-- The set-up of the namespaces and the start-up under concrete kernels.
use nsproxy_rs.Base.{◌≡◌, ◌↔◌, refl, Bool, List, [], ◌∷◌, ok, length}
use nsproxy_rs.Base.Text.{codes}
use nsproxy_rs.Sys.{done, failed, Kernel, Post}
use nsproxy_rs.Namespace.{Call, Calls, unshare, read_byte}
use nsproxy_rs.Namespace.Resources.{descriptor, resources, Holds}
use nsproxy_rs.Namespace.Net.{create_tun, create_namespace, write_id_maps, bringup_loopback}
use nsproxy_rs.Namespace.Net.Descriptors.{create_tun-resources}
use nsproxy_rs.Namespace.Mounts.{
  BindMount, setup_mount_namespace, bind_mount_tmpfile, bind_mount_all,
}
use nsproxy_rs.Namespace.Mounts.Cleanup.{Unlinks, setup_mount_namespace-resources}
use nsproxy_rs.Namespace.Binds.{Metadata, regular, FileSystem, Identity, parse_bind_mounts}
use nsproxy_rs.Namespace.Binds.Accepted.{ReadsAll, Fresh, parse_bind_mounts_iff}
use nsproxy_rs.Startup.{child_main, parent_setup, read_control_byte}
use nsproxy_rs.Startup.Channel.{byte, tun_descriptor, sent, received, launched}
use nsproxy_rs.Startup.Child.{bit}
use nsproxy_rs.Startup.Handshake.{Releases, launched-Releases}

-- Every call succeeds, with a new number each time.
abbrev agree : Kernel Call
agree t call = done (length t) (codes "/tmp/nsproxy-aBcDeF")

-- The first unshare is refused, and a read gives the byte 1.
abbrev unprivileged : Kernel Call
unprivileged [] (unshare flags) = failed 1
unprivileged t (read_byte sock) = done 1 (1 ∷ [])
unprivileged t call = agree t call

abbrev hosts : BindMount
hosts = record { source = codes "/home/u/hosts"; target = codes "/etc/hosts" }

create_tun-resources_example :
    Post (λ fd. Holds (descriptor fd ∷ [])) (Holds []) (create_tun agree [])
unfolding resources
create_tun-resources_example = create_tun-resources agree [] refl

agree-Unlinks : Unlinks agree
agree-Unlinks t path = (length t, codes "/tmp/nsproxy-aBcDeF", refl)

setup_mount_namespace-resources_example :
    Post (λ over. Holds []) (Holds []) (setup_mount_namespace (hosts ∷ []) agree [])
unfolding resources
setup_mount_namespace-resources_example =
    setup_mount_namespace-resources agree agree-Unlinks (hosts ∷ []) [] refl

-- Every path names a file, and paths of different lengths different ones.
abbrev all_files : FileSystem
all_files path = ok (record { file_type = regular; dev = 1; ino = length path })

parse_bind_mounts_iff_example :
    (parse_bind_mounts all_files (codes "/home/u/hosts:/etc/hosts" ∷ []) (codes "/root")
      ≡ ok (hosts ∷ []))
    ↔ ((resolv : Metadata) × (nsswitch : Metadata) × (ids : List Identity) × (all_files
            (codes "/etc/resolv.conf")
          ≡ ok resolv)
        × (all_files (codes "/etc/nsswitch.conf") ≡ ok nsswitch)
        × ReadsAll all_files
            (codes "/root")
            (codes "/home/u/hosts:/etc/hosts" ∷ [])
            (hosts ∷ [])
            ids
        × Fresh all_files
            (codes "/root")
            ((resolv.dev, resolv.ino) ∷ (nsswitch.dev, nsswitch.ino) ∷ [])
            []
            ids)
parse_bind_mounts_iff_example =
    parse_bind_mounts_iff all_files (codes "/root") (codes "/home/u/hosts:/etc/hosts") []
      (hosts ∷ [])

abbrev child_run : Calls
child_run = (child_main 3 5 [] (codes "id" ∷ []) unprivileged []).1

abbrev parent_run : Calls
parent_run = (parent_setup 3 4 77 unprivileged []).1

launched-Releases_example :
    (maps : Bool) × (sent child_run ≡ tun_descriptor ∷ byte (bit maps) ∷ [])
    × Releases 77 maps parent_run
unfolding child_main parent_setup read_control_byte sent received launched create_namespace
    write_id_maps bringup_loopback create_tun setup_mount_namespace bind_mount_tmpfile
    bind_mount_all
launched-Releases_example =
    launched-Releases unprivileged unprivileged 3 5 3 4 77 [] (codes "id" ∷ []) ([], refl)
      ([], refl) refl
