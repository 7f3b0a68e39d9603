-- ===== src/Namespace/Mounts/Table.antt =====
-- src/namespace.rs: what a sequence of calls has mounted, read off the calls alone.
use nsproxy_rs.Base.{ℕ, List, [], ◌∷◌, Bytes, bytes_beq, ◌==◌, Option, none, some, if◌then◌else◌}
use nsproxy_rs.Sys.{done}
use nsproxy_rs.Namespace.{
  Calls, rec_private, bind, tmpfs, mount, move_mount, mkstemp, open_tree, write_all,
}

-- The descriptor that `mkstemp` gave last with a path, and what was written last to a descriptor.
unfoldable pub descriptor_of : Bytes → Calls → Option ℕ
descriptor_of path [] = none
descriptor_of path ((mkstemp template, done fd name) ∷ t) =
    let earlier = descriptor_of path t in if bytes_beq name path then some fd else earlier
descriptor_of path (_ ∷ t) = descriptor_of path t

unfoldable pub written_to : ℕ → Calls → Bytes
written_to fd [] = []
written_to fd ((write_all to content, done n bytes) ∷ t) =
    let earlier = written_to fd t in if to == fd then content else earlier
written_to fd (_ ∷ t) = written_to fd t

-- The text of a temporary file.
unfoldable pub text_of : Bytes → Calls → Bytes
unfolding descriptor_of written_to
text_of path t = elim (descriptor_of path t) [ none ↦ [] | some fd ↦ written_to fd t ]

-- The path that `open_tree` gave last as a descriptor.
unfoldable pub object_of : ℕ → Calls → Bytes
object_of fd [] = []
object_of fd ((open_tree path, done n bytes) ∷ t) =
    let earlier = object_of fd t in if n == fd then path else earlier
object_of fd (_ ∷ t) = object_of fd t

-- What is seen at a target behind a mount: the same as before, a file with a text, the object that had
-- a path, or an empty directory.
pub data Content : Type 0 where
  unchanged empty_directory : Content
  text object : Bytes → Content

-- The mounts that succeeded, the last one first, each its target and what it shows.
unfoldable pub mounted : Calls → List (Bytes × Content)
unfolding text_of object_of
mounted [] = []
mounted ((mount rec_private source target, done n bytes) ∷ t) = (target, unchanged) ∷ mounted t
mounted ((mount tmpfs source target, done n bytes) ∷ t) = (target, empty_directory) ∷ mounted t
mounted ((mount bind source target, done n bytes) ∷ t) =
    (target, text (text_of source t)) ∷ mounted t
mounted ((move_mount fd target, done n bytes) ∷ t) = (target, object (object_of fd t)) ∷ mounted t
mounted (_ ∷ t) = mounted t
