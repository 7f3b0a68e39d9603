-- ===== src/Namespace/Net/Descriptors.antt =====
-- src/namespace.rs: the TUN device and loopback hand back every descriptor but the one returned.
use nsproxy_rs.Base.{ℕ, List, ◌∷◌, arith}
use nsproxy_rs.Sys.{Kernel, Post}
use nsproxy_rs.Namespace.{Call, Calls}
use nsproxy_rs.Namespace.Resources.{Resource, descriptor, resources, Holds}
use nsproxy_rs.Namespace.Net.{create_tun, with_device, write_id_maps, bringup_loopback}

module _ (k : Kernel Call) {held : List Resource} where
  -- The descriptor returned is the only one that is left open, on every way out.
  pub create_tun-resources :
      (t : Calls)
      → Holds held t
      → Post (λ fd. Holds (descriptor fd ∷ held)) (Holds held) (create_tun k t)
  unfolding create_tun with_device resources
  create_tun-resources t h = ground (arith)

  -- Nothing stays open, whichever of the three files cannot be written.
  pub write_id_maps-resources :
      (child_pid uid gid : ℕ) (t : Calls)
      → Holds held t
      → Post (λ u. Holds held) (Holds held) (write_id_maps child_pid uid gid k t)
  unfolding write_id_maps resources
  write_id_maps-resources child_pid uid gid t h = ground arith

  -- The socket of the request is closed on both ways out.
  pub bringup_loopback-resources :
      (t : Calls) → Holds held t → Post (λ u. Holds held) (Holds held) (bringup_loopback k t)
  unfolding bringup_loopback resources
  bringup_loopback-resources t h = ground arith
