-- ===== src/Namespace/Resources.antt =====
-- src/namespace.rs: the descriptors and temporary files that the set-up holds.
use nsproxy_rs.Base.{
  ℕ, ◌≡◌, Bool, false, List, [], ◌∷◌, Bytes, Option, none, some, ◌==◌, bytes_beq, if◌then◌else◌,
}
use nsproxy_rs.Sys.{Answer, done}
use nsproxy_rs.Namespace.{Call, open_file, socket, close, mkstemp, unlink, open_tree, Calls}

pub data Resource : Type 0 where
  descriptor : ℕ → Resource
  temp_file : Bytes → Resource

resource_beq : Resource → Resource → Bool
resource_beq (descriptor a) (descriptor b) = a == b
resource_beq (temp_file a) (temp_file b) = bytes_beq a b
resource_beq _ _ = false

-- To give back what is not held is an error.
take_out : Resource → List Resource → Option (List Resource)
unfolding resource_beq
take_out r [] = none
take_out r (s ∷ held) =
    if resource_beq r s
    then some held
    else elim (take_out r held) [ none ↦ none | some rest ↦ some (s ∷ rest) ]

-- What one call does to the resources held before. A close gives the descriptor back whatever it
-- answers; a refused unlink leaves the file.
pub use_call : Call → Answer → List Resource → Option (List Resource)
unfolding take_out
use_call (open_file path) (done fd bytes) held = some (descriptor fd ∷ held)
use_call socket (done fd bytes) held = some (descriptor fd ∷ held)
use_call (open_tree path) (done fd bytes) held = some (descriptor fd ∷ held)
use_call (mkstemp template) (done fd path) held = some (descriptor fd ∷ temp_file path ∷ held)
use_call (close fd) answer held = take_out (descriptor fd) held
use_call (unlink path) (done n bytes) held = take_out (temp_file path) held
use_call _ answer held = some held

-- What is held after the calls, or `none` if something was given back twice.
unfoldable pub resources : Calls → Option (List Resource)
unfolding use_call
resources [] = some []
resources ((call, answer) ∷ t) = elim (resources t) [
  | none ↦ none
  | some held ↦ use_call call answer held
]

-- Exactly these are held.
abbrev pub Holds : List Resource → Calls → Type 0
Holds held t = resources t ≡ some held
