-- ===== src/Namespace/Binds/Objects.antt =====
-- src/namespace.rs: the objects that the options for bind mounts name, as the system tells them apart.
use Prim.Native.String.{String}
use nsproxy_rs.Base.{
  ℕ, ◌≡◌, refl, ap, subst, sym, ◌⊎◌, inl, inr, true, false, List, [], ◌∷◌, Bytes, Result, ok, err,
  >>=-eq-ok, guard, guard-eq-ok, All, arith,
}
use nsproxy_rs.Namespace.{message}
use nsproxy_rs.Namespace.Binds.{
  FileSystem, Metadata, FileType, regular, symlink, Identity, identity, member, is_file_or_symlink,
  location, with_errno, inspect_bind_path,
}

pub with_errno-eq-ok :
    {A : Type 0} (context : String) (r : Result ℕ A) {a : A}
    → with_errno context r ≡ ok a
    → r ≡ ok a
with_errno-eq-ok context (ok a) h = cc
with_errno-eq-ok context (err errno) h = cc

-- The same device and the same inode.
abbrev pub SameObject : Identity → Identity → Type 0
SameObject i j = (i.0 ≡ j.0) × (i.1 ≡ j.1)

-- None of the objects.
abbrev pub NoneOf : List Identity → Identity → Type 0
NoneOf objects i = All (λ j. SameObject i j → ⊥) objects

pub member-NoneOf :
    (i : Identity) (objects : List Identity) → member i objects ≡ false → NoneOf objects i
member-NoneOf i [] h = tt
member-NoneOf i (j ∷ js) h = (λ same. ground (arith, same), member-NoneOf i js (ground arith))

pub NoneOf-member :
    (i : Identity) (objects : List Identity) → NoneOf objects i → member i objects ≡ false
NoneOf-member i [] h = refl
NoneOf-member i (j ∷ js) (apart, others) = ground (arith, apart, NoneOf-member i js others)

abbrev pub IsFile : FileType → Type 0
IsFile t = (t ≡ regular) ⊎ (t ≡ symlink)

is_file-true : (t : FileType) → is_file_or_symlink t ≡ true → IsFile t
is_file-true regular h = inl refl
is_file-true symlink h = inr refl
is_file-true _ h = cc

IsFile-is_file : (t : FileType) → IsFile t → is_file_or_symlink t ≡ true
IsFile-is_file t (inl e) = rw e refl
IsFile-is_file t (inr e) = rw e refl

module _ (fs : FileSystem) (cwd : Bytes) where
  -- The text names the object at the absolute path, a file or a symbolic link.
  pub record Names (text path : Bytes) (m : Metadata) : Type 0 where
    pub is_located : path ≡ location cwd text
    pub exists : fs path ≡ ok m
    pub is_file : IsFile m.file_type

  pub inspect-Names :
      (text path : Bytes) (id : Identity)
      → inspect_bind_path fs text cwd ≡ ok (path, id)
      → (m : Metadata) × Names text path m × (id ≡ identity m)
  unfolding inspect_bind_path
  inspect-Names text path id h =
      let (m, found, h1) =
        >>=-eq-ok (with_errno "inspect bind mount" (fs (location cwd text))) _ h in
      let (u, file, h2) =
        >>=-eq-ok (guard (is_file_or_symlink m.file_type) (message "not a regular file or symlink"))
          _ h1 in
      let e : location cwd text ≡ path = cc in
      (
        m,
        record {
          is_located = cc;
          exists =
              subst (λ p. fs p ≡ ok m) e
                (with_errno-eq-ok "inspect bind mount" (fs (location cwd text)) found);
          is_file = is_file-true m.file_type (guard-eq-ok _ _ file);
        },
        cc,
      )

  pub Names-inspect :
      (text path : Bytes) (m : Metadata)
      → Names text path m
      → inspect_bind_path fs text cwd ≡ ok (path, identity m)
  unfolding inspect_bind_path
  Names-inspect text path m n =
      let found : fs (location cwd text) ≡ ok m = subst (λ p. fs p ≡ ok m) n.is_located n.exists in
      rw (found, IsFile-is_file m.file_type n.is_file)
        (ap (λ p. ok (p, identity m)) (sym n.is_located))
