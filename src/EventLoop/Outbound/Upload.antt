-- ===== src/EventLoop/Outbound/Upload.antt =====
-- src/event_loop/outbound.rs: the way from the application to the proxy in `shuttle_established`.
use nsproxy_rs.Base.{
  ◌≡◌, if◌then◌else◌, refl, sym, ℕ, zero, suc, take, inl, inr, ◌&&◌, List, [], ◌∷◌, ◌++◌, Bytes,
  All, Bool-cases, take-append-drop,
}
use nsproxy_rs.EventLoop.Outbound.Forward.{
  Round, WriteResult, wrote, write_blocked, write_error, on_write, upload,
}

-- The bytes that the stream to the proxy accepts, by its own answer.
abbrev pub accepted : WriteResult → Bytes → Bytes
accepted (wrote n) offered = take n offered
accepted write_blocked offered = []
accepted write_error offered = []

-- The application's bytes that leave the socket are those that the stream accepts, and the others stay.
abbrev pub KeepsUpload : Round → Type 0
KeepsUpload round =
    ((upload round).0 ≡ (
      if round.may_recv_before && round.can_recv then accepted round.write round.recv_data else []))
    × ((upload round).0 ++ (upload round).1 ≡ round.recv_data)

take-nil : (n : ℕ) → Path Bytes (take n []) []
take-nil zero = refl
take-nil (suc n) = refl

on_write-accepted :
    (write : WriteResult) (offered : Bytes) → (on_write write offered).0 ≡ accepted write offered
on_write-accepted (wrote n) [] = sym (take-nil n)
on_write-accepted (wrote n) (b ∷ bs) = refl
on_write-accepted write_blocked [] = refl
on_write-accepted write_blocked (b ∷ bs) = refl
on_write-accepted write_error [] = refl
on_write-accepted write_error (b ∷ bs) = refl

on_write-bytes :
    (write : WriteResult) (offered : Bytes)
    → (on_write write offered).0 ++ (on_write write offered).1 ≡ offered
on_write-bytes write [] = refl
on_write-bytes (wrote n) (b ∷ bs) = take-append-drop n (b ∷ bs)
on_write-bytes write_blocked (b ∷ bs) = refl
on_write-bytes write_error (b ∷ bs) = refl

upload-KeepsUpload : (round : Round) → KeepsUpload round
unfolding upload
upload-KeepsUpload round = elim (Bool-cases (round.may_recv_before && round.can_recv)) [
  | inl e ↦
      rw e
        (on_write-accepted round.write round.recv_data, on_write-bytes round.write round.recv_data)
  | inr e ↦ rw e (refl, refl)
]

pub rounds-KeepsUpload : (rounds : List Round) → All KeepsUpload rounds
rounds-KeepsUpload [] = tt
rounds-KeepsUpload (round ∷ rounds) = (upload-KeepsUpload round, rounds-KeepsUpload rounds)
