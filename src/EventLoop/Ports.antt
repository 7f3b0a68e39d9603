-- ===== src/EventLoop/Ports.antt =====
-- src/event_loop/published.rs: `PortAllocator`, the source ports of published connections.
pub mod Free
use nsproxy_rs.Base.{
  ℕ, zero, suc, ◌+◌, ◌-◌, Bool, false, ◌||◌, List, [], ◌∷◌, Option, none, some, ◌==◌, if◌then◌else◌,
}

abbrev pub port_min : ℕ
port_min = 49152

abbrev pub port_max : ℕ
port_max = 65535

-- The set of used ports is a list without repetitions.
pub record PortAllocator : Type 0 where
  pub next : ℕ
  pub used : List ℕ

abbrev pub new : PortAllocator
new = record { next = port_min; used = [] }

abbrev pub is_used : ℕ → List ℕ → Bool
is_used p [] = false
is_used p (q ∷ qs) = p == q || is_used p qs

abbrev pub following : ℕ → ℕ
following candidate = if candidate == port_max then port_min else candidate + 1

-- The `for` loop of `allocate`, for the given number of candidates.
unfoldable pub try_ports : ℕ → PortAllocator → Option ℕ × PortAllocator
try_ports zero a = (none, a)
try_ports (suc n) a =
    let candidate = a.next in
    let rest = try_ports n (record a { next = following candidate }) in
    if is_used candidate a.used
    then rest
    else (some candidate, record { next = following candidate; used = candidate ∷ a.used })

abbrev pub capacity : ℕ
capacity = port_max - port_min + 1

unfoldable pub allocate : PortAllocator → Option ℕ × PortAllocator
allocate = try_ports capacity

-- `HashSet::remove`.
abbrev pub without : ℕ → List ℕ → List ℕ
without p [] = []
without p (q ∷ qs) = let rest = without p qs in if p == q then rest else q ∷ rest

unfoldable pub release : ℕ → PortAllocator → PortAllocator
release port a = record a { used = without port a.used }
