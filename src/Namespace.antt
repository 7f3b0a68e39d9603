-- ===== src/Namespace.antt =====
-- src/namespace.rs: the system calls that set up the namespaces, the interface request and the
-- netmask. The children hold the functions of the file.
pub mod Resources
pub mod Net
pub mod Mounts
pub mod Binds
use Prim.Native.String.{String}
use nsproxy_rs.Base.{
  ℕ, zero, suc, ◌+◌, ◌-◌, ◌*◌, ◌/◌, ◌%◌, ◌^◌, List, [], ◌∷◌, ◌++◌, Bytes, take, length, ◌==◌,
  if◌then◌else◌, Result,
}
use nsproxy_rs.Base.Text.{codes}
use nsproxy_rs.Sys.{Sys, Trace, Kernel, Post, Keeps, Post-bind, step}

pub data CloneFlag : Type 0 where
  new_net new_user new_ns : CloneFlag

-- The first argument of an ioctl behind the descriptor, with the fields of its structure.
pub data Request : Type 0 where
  tun_set_iff : Bytes → ℕ → Request
  set_mtu : Bytes → ℕ → Request
  set_addr : Bytes → ℕ → Request
  set_netmask : Bytes → Bytes → Request
  set_flags : Bytes → ℕ → Request
  add_route : ℕ → Bytes → Request

pub data MountKind : Type 0 where
  rec_private bind tmpfs : MountKind

pub data Call : Type 0 where
  unshare : List CloneFlag → Call
  open_file : Bytes → Call
  socket : Call
  ioctl : ℕ → Request → Call
  close : ℕ → Call
  write_all : ℕ → Bytes → Call
  set_permissions : ℕ → ℕ → Call
  mkstemp : Bytes → Call
  unlink : Bytes → Call
  mount : MountKind → Bytes → Bytes → Call
  open_tree : Bytes → Call
  move_mount : ℕ → Bytes → Call
  -- The set-up channel between parent and child.
  read_byte : ℕ → Call
  write : ℕ → Bytes → Call
  send_fd : ℕ → ℕ → Call
  recv_fd : ℕ → Call
  -- What the parent prepares, and what the child ends with.
  getuid getgid : Call
  bind_publish_specs build_runtime register_publish_specs : Call
  listen : ℕ → Call
  run_command_tree : List Bytes → Call

-- An error of the system with its context and number, or a message of the program.
pub data Failure : Type 0 where
  system : String → ℕ → Failure
  message : String → Failure
  panicked : Failure
  -- The fuel of the model ran out.
  out_of_fuel : Failure

abbrev pub Setup : Type 0 → Type 0
Setup = Sys Call Failure

abbrev pub Calls : Type 0
Calls = Trace Call

abbrev pub if_namesize : ℕ
if_namesize = 16

abbrev zeros : ℕ → Bytes
zeros zero = []
zeros (suc n) = 0 ∷ zeros n

-- Bytes copied to the start of a zeroed array of `n` bytes.
abbrev pub zero_extended : ℕ → Bytes → Bytes
zero_extended n bytes = bytes ++ zeros (n - length bytes)

-- The name in the request, `ifr_name`.
unfoldable pub ifreq_for : Bytes → Bytes
ifreq_for name = zero_extended if_namesize (take (if_namesize - 1) name)

-- `u32::to_be_bytes`.
abbrev pub to_be_bytes : ℕ → Bytes
to_be_bytes n = n / 2 ^ 24 % 256 ∷ n / 2 ^ 16 % 256 ∷ n / 2 ^ 8 % 256 ∷ n % 256 ∷ []

-- The mask of a prefix of at most 32 bits. A shift of a `u32` drops what leaves the word.
unfoldable pub netmask_octets : ℕ → Bytes
netmask_octets prefix =
    to_be_bytes (if prefix == 0 then 0 else (2 ^ 32 - 1) * 2 ^ (32 - prefix) % 2 ^ 32)

-- A step whose value is not used, and the rest of the function: `Q` holds between the two.
pub then-Post :
    (P Q F : Calls → Type 0) (k : Kernel Call) (r : Result Failure (Unit {0}) × Calls)
    (rest : Unit {0} → Setup (Unit {0}))
    → Post (λ done. Q) F r
    → ((done : Unit {0}) (t : Calls) → Q t → Post (λ over. P) F (rest done k t))
    → Post (λ over. P) F (step r k rest)
then-Post P Q F k r rest h next = Post-bind (λ u. P) F (λ u. Q) k r rest h next

pub then-Keeps :
    (I : Calls → Type 0) (k : Kernel Call) (r : Result Failure (Unit {0}) × Calls)
    (rest : Unit {0} → Setup (Unit {0}))
    → Post (λ done. I) I r
    → ((done : Unit {0}) → Keeps I k (rest done))
    → Post (λ done. I) I (step r k rest)
then-Keeps I = then-Post I I I
