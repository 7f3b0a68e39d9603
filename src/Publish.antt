-- ===== src/Publish.antt =====
-- src/publish.rs: parsing of the published ports and the binding of their listeners. The sockets of
-- the operating system are the parameters `bind`, `set_nonblocking` and `from_std`.
pub mod Endpoints
pub mod Spelled
pub mod Texts
use nsproxy_rs.Base.{
  ℕ, Bool, true, false, ◌&&◌, ◌||◌, not, List, [], ◌∷◌, ◌++◌, Option, none, some, Bytes, Result, ok,
  err, ◌>>=◌, ◌>>◌, guard, or_fail, ◌==◌, if◌then◌else◌, bytes_beq,
}
use nsproxy_rs.Base.Text.{codes, split, split_once}
use nsproxy_rs.Std.Number.{parse_uint, u16_max}
use nsproxy_rs.Std.Address.{parse_ipv4}

pub record PublishSpec : Type 0 where
  pub host_ip : ℕ
  pub host_port : ℕ
  pub namespace_port : ℕ

-- `SocketAddrV4`, as its address and port.
abbrev pub Endpoint : Type 0
Endpoint = ℕ × ℕ

abbrev pub host_addr : PublishSpec → Endpoint
host_addr s = (s.host_ip, s.host_port)

pub data Error : Type 0 where
  unsupported_protocol invalid_address invalid_specification invalid_port : Error
  port_zero duplicate_endpoint bind_failed nonblocking_failed register_failed : Error

unfoldable pub parse_port : Bytes → Result Error ℕ
parse_port value = do
  port ← or_fail (parse_uint u16_max value) invalid_port
  guard (not (port == 0)) port_zero
  ok port

abbrev pub unspecified : ℕ
unspecified = 0

-- The `match` on the fields between the colons.
unfoldable pub parse_fields : List Bytes → Result Error PublishSpec
parse_fields (host_port ∷ namespace_port ∷ []) = do
  host_port ← parse_port host_port
  namespace_port ← parse_port namespace_port
  ok (record { host_ip = unspecified; host_port = host_port; namespace_port = namespace_port })
parse_fields (host_ip ∷ host_port ∷ namespace_port ∷ []) = do
  host_ip ← or_fail (parse_ipv4 host_ip) invalid_address
  host_port ← parse_port host_port
  namespace_port ← parse_port namespace_port
  ok (record { host_ip = host_ip; host_port = host_port; namespace_port = namespace_port })
parse_fields _ = err invalid_specification

-- The address and the protocol, which is `tcp` unless it is given.
abbrev pub split_protocol : Bytes → Bytes × Bytes
split_protocol raw = elim (split_once b'/' raw) [ some parts ↦ parts | none ↦ (raw, codes "tcp") ]

unfoldable pub parse_publish_spec : Bytes → Result Error PublishSpec
parse_publish_spec raw = do
  let parts = split_protocol raw
  guard (bytes_beq parts.1 (codes "tcp")) unsupported_protocol
  parse_fields (split b':' parts.0)

-- `HashSet::contains`, on a list of endpoints.
abbrev pub contains_endpoint : Endpoint → List Endpoint → Bool
contains_endpoint e [] = false
contains_endpoint e (f ∷ fs) = e.0 == f.0 && e.1 == f.1 || contains_endpoint e fs

-- The loop of `parse_publish_specs`, with the endpoints seen so far.
unfoldable pub parse_specs_from : List Endpoint → List Bytes → Result Error (List PublishSpec)
parse_specs_from seen [] = ok []
parse_specs_from seen (raw ∷ specs) = do
  spec ← parse_publish_spec raw
  guard (not (contains_endpoint (host_addr spec) seen)) duplicate_endpoint
  parsed ← parse_specs_from (host_addr spec ∷ seen) specs
  ok (spec ∷ parsed)

unfoldable pub parse_publish_specs : List Bytes → Result Error (List PublishSpec)
parse_publish_specs = parse_specs_from []

pub record BoundPublish (Listener : Type 0) : Type 0 where
  pub spec : PublishSpec
  pub listener : Listener

pub record RegisteredPublish (Registered : Type 0) : Type 0 where
  pub registered_spec : PublishSpec
  pub registered_listener : Registered

-- The closure and the `collect`, which stops at the first failure.
unfoldable pub bind_publish_specs :
    {Listener : Type 0}
    → (Endpoint → Option Listener)
    → (Listener → Bool)
    → List PublishSpec
    → Result Error (List (BoundPublish Listener))
bind_publish_specs bind set_nonblocking [] = ok []
bind_publish_specs bind set_nonblocking (s ∷ ss) = do
  listener ← or_fail (bind (host_addr s)) bind_failed
  guard (set_nonblocking listener) nonblocking_failed
  bound ← bind_publish_specs bind set_nonblocking ss
  ok (record { spec = s; listener = listener } ∷ bound)

unfoldable pub register_publish_specs :
    {Listener Registered : Type 0}
    → (Listener → Option Registered)
    → List (BoundPublish Listener)
    → Result Error (List (RegisteredPublish Registered))
register_publish_specs from_std [] = ok []
register_publish_specs from_std (b ∷ bs) = do
  listener ← or_fail (from_std b.listener) register_failed
  registered ← register_publish_specs from_std bs
  ok (record { registered_spec = b.spec; registered_listener = listener } ∷ registered)
