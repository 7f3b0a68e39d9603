-- ===== src/Namespace/Binds.antt =====
-- src/namespace.rs: the options for bind mounts, with what `std::path` does to their paths. The file
-- system is a parameter.
pub mod Objects
pub mod Accepted
use Prim.Native.String.{String}
use nsproxy_rs.Base.{
  ℕ, Bool, true, false, not, ◌&&◌, ◌||◌, List, [], ◌∷◌, ◌++◌, Bytes, Option, none, some, bytes_beq,
  ◌==◌, if◌then◌else◌, Result, ok, err, ◌>>=◌, ◌>>◌, guard, or_fail, is_some,
}
use nsproxy_rs.Base.Text.{codes, split, strip_prefix}
use nsproxy_rs.Namespace.{Failure, message, system}
use nsproxy_rs.Namespace.Mounts.{BindMount}

pub data FileType : Type 0 where
  regular symlink other_type : FileType

pub record Metadata : Type 0 where
  pub file_type : FileType
  pub dev : ℕ
  pub ino : ℕ

-- `symlink_metadata`: the object that a path names, or the number of an error.
abbrev pub FileSystem : Type 0
FileSystem = Bytes → Result ℕ Metadata

abbrev pub Identity : Type 0
Identity = ℕ × ℕ

abbrev pub identity : Metadata → Identity
identity m = (m.dev, m.ino)

abbrev pub same_identity : Identity → Identity → Bool
same_identity a b = a.0 == b.0 && a.1 == b.1

abbrev pub member : Identity → List Identity → Bool
member i [] = false
member i (j ∷ js) = same_identity i j || member i js

abbrev pub starts_with : Bytes → Bytes → Bool
starts_with s p = is_some (strip_prefix p s)

abbrev pub is_absolute : Bytes → Bool
is_absolute path = starts_with path (codes "/")

abbrev pub ends_with_slash : Bytes → Bool
ends_with_slash [] = false
ends_with_slash (b ∷ []) = b == b'/'
ends_with_slash (b ∷ c ∷ bs) = ends_with_slash (c ∷ bs)

-- `PathBuf::push` of a relative path: a separator unless there is one.
unfoldable pub push : Bytes → Bytes → Bytes
push base path = if ends_with_slash base then base ++ path else base ++ b'/' ∷ path

-- `Path::join`.
unfoldable pub path_join : Bytes → Bytes → Bytes
unfolding push strip_prefix
path_join base path = if is_absolute path then path else push base path

push_all : Bytes → List Bytes → Bytes
unfolding push
push_all base [] = base
push_all base (c ∷ cs) =
    push_all (if bytes_beq c [] || bytes_beq c (codes ".") then base else push base c) cs

-- `std::path::absolute` of a path that is not empty: separators and "." are collapsed, ".." and a
-- final separator are kept, and symbolic links are not looked at. Two separators at the start stay.
unfoldable pub absolute : Bytes → Bytes → Bytes
unfolding push_all push split strip_prefix
absolute current path =
    let base =
      if is_absolute path
      then if starts_with path (codes "//") && not (starts_with path (codes "///"))
        then codes "//"
        else codes "/"
      else current in
    let normalized = push_all base (split b'/' path) in
    if ends_with_slash path then push normalized [] else normalized

abbrev pub is_file_or_symlink : FileType → Bool
is_file_or_symlink regular = true
is_file_or_symlink symlink = true
is_file_or_symlink other_type = false

-- What the program names "source" or "target" of a bind mount, as an absolute path.
unfoldable pub location : Bytes → Bytes → Bytes
unfolding path_join absolute
location cwd path = absolute cwd (if is_absolute path then path else path_join cwd path)

abbrev pub with_errno : {A : Type 0} → String → Result ℕ A → Result Failure A
with_errno context (ok a) = ok a
with_errno context (err errno) = err (system context errno)

module _ (fs : FileSystem) where
  unfoldable pub inspect_bind_path : Bytes → Bytes → Result Failure (Bytes × Identity)
  inspect_bind_path path cwd = do
    metadata ← with_errno "inspect bind mount" (fs (location cwd path))
    guard (is_file_or_symlink metadata.file_type) (message "not a regular file or symlink")
    ok (location cwd path, identity metadata)

  -- The fields of "SRC:DST".
  unfoldable pub parse_fields : List Bytes → Result Failure (Bytes × Bytes)
  parse_fields (source ∷ target ∷ []) = do
    guard (not (bytes_beq source [] || bytes_beq target [])) (message "expected exactly SRC:DST")
    ok (source, target)
  parse_fields _ = err (message "expected exactly SRC:DST")

  unfoldable pub parse_mounts_from :
      List Identity → List Identity → Bytes → List Bytes → Result Failure (List BindMount)
  unfolding parse_fields inspect_bind_path
  parse_mounts_from internal targets cwd [] = ok []
  parse_mounts_from internal targets cwd (spec ∷ specs) = do
    (source_text, target_text) ← parse_fields (split b':' spec)
    (source, source_id) ← inspect_bind_path source_text cwd
    (target, target_id) ← inspect_bind_path target_text cwd
    guard (not (member target_id internal)) (message "conflicts with an internal DNS mount")
    guard (not (member target_id targets)) (message "duplicate bind mount target")
    mounts ← parse_mounts_from internal (target_id ∷ targets) cwd specs
    ok (record { source = source; target = target } ∷ mounts)

  -- The files of the resolver, which the program mounts over itself.
  unfoldable pub internal_targets : Result Failure (List Identity)
  internal_targets = do
    resolv ← with_errno "inspect internal bind-mount targets" (fs (codes "/etc/resolv.conf"))
    nsswitch ← with_errno "inspect internal bind-mount targets" (fs (codes "/etc/nsswitch.conf"))
    ok (identity resolv ∷ identity nsswitch ∷ [])

  unfoldable pub parse_bind_mounts : List Bytes → Bytes → Result Failure (List BindMount)
  unfolding parse_mounts_from internal_targets
  parse_bind_mounts [] cwd = ok []
  parse_bind_mounts (spec ∷ specs) cwd = do
    internal ← internal_targets
    parse_mounts_from internal [] cwd (spec ∷ specs)
