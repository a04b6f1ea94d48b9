-- ===== src/Hostsvc/Files/Hidden.antt =====
-- What a plugin learns of a file that is not its own: `checkOwnership` of core/hostsvc/files.go and
-- its callers.
use moduless.Base.{
  ℕ, ◌∷◌, false, if◌then◌else◌, Bytes, ◌=?◌, none, some, ℤ, ◌≡◌, refl, Bool-cases, inl, inr, ◌⊎◌,
}
use moduless.Hostsvc.Files.{
  Backend, Files, FileError, file_not_found, not_configured, row, no_rows, Result, ok, fails_with,
  check_ownership,
}
use moduless.Hostsvc.Files.Access.{delete, generate_download_token, metadata}
use moduless.Hostsvc.Files.Calls.{
  Server, Status, Reply, replies, refuses, gate, delete_file, download_token, get_file_metadata,
  seconds, perm_files_read, perm_files_write,
}

Reply-cases {ℓ} :
    {A : Type ℓ} (r : Reply A)
    → ((a : A) × (r ≡ replies a)) ⊎ ((status : Status) × (r ≡ refuses status))
Reply-cases (replies a) = inl (a, refl)
Reply-cases (refuses status) = inr (status, refl)

module _ {World : Type 0} (backend : Backend World) where
  unowned :
      (key file_id : Bytes) (c : ℕ) (owner : Bytes) (w : World)
      → backend.get_file_owner file_id w ≡ row (c ∷ owner)
      → ((c ∷ owner) =? key) ≡ false
      → check_ownership backend key file_id w ≡ some (file_not_found file_id)
  unfolding check_ownership
  unowned key file_id c owner w h q = rw h (rw q refl)

  missing :
      (key file_id : Bytes) (w : World)
      → backend.get_file_owner file_id w ≡ no_rows
      → check_ownership backend key file_id w ≡ some (file_not_found file_id)
  unfolding check_ownership
  missing key file_id w h = rw h refl

  abbrev refusal : Files → FileError → FileError
  refusal f err = if f.has_queries then err else not_configured

  delete-refuses :
      (f : Files) (key file_id : Bytes) (err : FileError) (w : World)
      → check_ownership backend key file_id w ≡ some err
      → delete backend f key file_id w ≡ (some (refusal f err), w)
  unfolding delete
  delete-refuses f key file_id err w h = elim (Bool-cases f.has_queries) [
    | inl q ↦ rw q (rw h refl)
    | inr q ↦ rw q refl
  ]

  token-refuses :
      (f : Files) (key file_id user_id : Bytes) (expiry : ℤ) (now : ℕ) (read : Result Bytes)
      (hex : Bytes → Bytes) (err : FileError) (w : World)
      → check_ownership backend key file_id w ≡ some err
      → generate_download_token backend f key file_id user_id expiry now read hex w
        ≡ (fails_with (refusal f err), w)
  unfolding generate_download_token
  token-refuses f key file_id user_id expiry now read hex err w h =
      elim (Bool-cases f.has_queries) [ inl q ↦ rw q (rw h refl) | inr q ↦ rw q refl ]

  metadata-refuses :
      (f : Files) (key file_id : Bytes) (err : FileError) (w : World)
      → check_ownership backend key file_id w ≡ some err
      → metadata backend f key file_id w
        ≡ (if f.has_queries then ok none else fails_with not_configured)
  unfolding metadata
  metadata-refuses f key file_id err w h = elim (Bool-cases f.has_queries) [
    | inl q ↦ rw q (rw h refl)
    | inr q ↦ rw q refl
  ]

  delete_file-refuses :
      (srv : Server) (file_id : Bytes) (err : FileError) (w v : World)
      → check_ownership backend srv.key file_id w ≡ some err
      → check_ownership backend srv.key file_id v ≡ some err
      → delete_file backend srv file_id w ≡ ((delete_file backend srv file_id v).0, w)
  unfolding delete_file
  delete_file-refuses srv file_id err w v h g = elim (Reply-cases (gate perm_files_write srv)) [
    | inl (f, q) ↦ rw q (
        rw (delete-refuses f srv.key file_id err w h, delete-refuses f srv.key file_id err v g)
          refl)
    | inr (status, q) ↦ rw q refl
  ]

  download_token-refuses :
      (srv : Server) (file_id user_id : Bytes) (expiry : ℤ) (now : ℕ) (read : Result Bytes)
      (hex : Bytes → Bytes) (err : FileError) (w v : World)
      → check_ownership backend srv.key file_id w ≡ some err
      → check_ownership backend srv.key file_id v ≡ some err
      → download_token backend srv file_id user_id expiry now read hex w
        ≡ ((download_token backend srv file_id user_id expiry now read hex v).0, w)
  unfolding download_token
  download_token-refuses srv file_id user_id expiry now read hex err w v h g =
      elim (Reply-cases (gate perm_files_read srv)) [
        | inl (f, q) ↦ rw q (
            rw
              (
                token-refuses f srv.key file_id user_id (seconds expiry) now read hex err w h,
                token-refuses f srv.key file_id user_id (seconds expiry) now read hex err v g,
              )
              refl)
        | inr (status, q) ↦ rw q refl
      ]

  get_file_metadata-refuses :
      (srv : Server) (file_id : Bytes) (err : FileError) (w v : World)
      → check_ownership backend srv.key file_id w ≡ some err
      → check_ownership backend srv.key file_id v ≡ some err
      → get_file_metadata backend srv file_id w ≡ get_file_metadata backend srv file_id v
  unfolding get_file_metadata
  get_file_metadata-refuses srv file_id err w v h g =
      elim (Reply-cases (gate perm_files_read srv)) [
        | inl (f, q) ↦ rw q (
            rw
              (
                metadata-refuses f srv.key file_id err w h,
                metadata-refuses f srv.key file_id err v g,
              )
              refl)
        | inr (status, q) ↦ rw q refl
      ]

-- A file of another plugin cannot be told from one that does not exist: where `w` records an owner
-- that is neither empty nor the caller, and `v` has no such file, the calls to delete it, to make a
-- download token for it and to read its metadata answer the same for both, and the first two leave
-- `w` as it is. So whatever the plugin is granted and however the other queries answer.
pub foreign-hides :
    {World : Type 0} (backend : Backend World) (srv : Server) (file_id user_id : Bytes) (expiry : ℤ)
    (now : ℕ) (read : Result Bytes) (hex : Bytes → Bytes) (w v : World) (c : ℕ) (owner : Bytes)
    → backend.get_file_owner file_id w ≡ row (c ∷ owner)
    → ((c ∷ owner) =? srv.key) ≡ false
    → backend.get_file_owner file_id v ≡ no_rows
    → (delete_file backend srv file_id w ≡ ((delete_file backend srv file_id v).0, w))
      × (download_token backend srv file_id user_id expiry now read hex w
          ≡ ((download_token backend srv file_id user_id expiry now read hex v).0, w))
      × (get_file_metadata backend srv file_id w ≡ get_file_metadata backend srv file_id v)
foreign-hides backend srv file_id user_id expiry now read hex w v c owner h q g =
    let a = unowned backend srv.key file_id c owner w h q in
    let b = missing backend srv.key file_id v g in
    let err = file_not_found file_id in
    (
      delete_file-refuses backend srv file_id err w v a b,
      download_token-refuses backend srv file_id user_id expiry now read hex err w v a b,
      get_file_metadata-refuses backend srv file_id err w v a b,
    )
