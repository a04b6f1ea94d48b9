-- ===== src/Hostsvc/Files/Access.antt =====
-- What a plugin does with a file that is there: Delete, GenerateDownloadToken and Metadata of
-- core/hostsvc/files.go. `read` is what `rand.Read` gives.
use moduless.Base.{
  ℕ, ◌+◌, ◌++◌, ◌∷◌, Bool, if◌then◌else◌, Bytes, bytes, Option, none, some, ℤ, default_unless_pos,
}
use moduless.Hostsvc.Files.{
  Answer, row, no_rows, query_failed, FileRow, InsertDownloadTokenParams, Backend, Files, FileError,
  not_configured, file_not_found, failed, Result, ok, fails_with, check_ownership,
}

-- `none` stands for a `FileMeta` with `Found` false.
abbrev meta_of : Answer FileRow → Option FileRow
meta_of (row found) = some found
meta_of no_rows = none
meta_of (query_failed err) = none

module _ {World : Type 0} (backend : Backend World) where
  abbrev deleted : Option Bytes × World → Option FileError × World
  deleted (none, w) = (none, w)
  deleted (some err, w) = (some (failed (bytes "delete file record") err), w)

  -- `Delete` behind the test of the owner.
  abbrev delete_found : Bool → Bytes → Answer FileRow → World → Option FileError × World
  delete_found has_conn file_id no_rows w = (some (file_not_found file_id), w)
  delete_found has_conn file_id (query_failed err) w = (some (file_not_found file_id), w)
  delete_found has_conn file_id (row found) w =
      if has_conn then deleted (backend.delete_file_record file_id w) else (some not_configured, w)

  abbrev delete_checked : Bool → Bytes → Option FileError → World → Option FileError × World
  delete_checked has_conn file_id (some err) w = (some err, w)
  delete_checked has_conn file_id none w =
      delete_found has_conn file_id (backend.get_file file_id w) w

  unfoldable pub delete : Files → Bytes → Bytes → World → Option FileError × World
  unfolding check_ownership
  delete f plugin_key file_id w =
      if f.has_queries
      then delete_checked f.has_conn file_id (check_ownership backend plugin_key file_id w) w
      else (some not_configured, w)

  abbrev issued : Bytes → ℕ → Option Bytes × World → Result (Bytes × ℕ) × World
  issued url expires_at (none, w) = (ok (url, expires_at), w)
  issued url expires_at (some err, w) = (fails_with (failed (bytes "issue download token") err), w)

  abbrev pub download_url : Files → Bytes → Bytes → Bytes
  download_url f file_id token =
      f.public_base_url ++ bytes "/api/system/files/download/" ++ file_id ++ b'/' ∷ token

  abbrev pub default_expiry : ℕ
  default_expiry = 300000000000

  abbrev pub token_params : Bytes → Bytes → Bytes → ℕ → InsertDownloadTokenParams
  token_params token file_id user_id expires_at = record {
    token = token;
    file_id = file_id;
    user_id = user_id;
    expires_at = expires_at;
  }

  abbrev issue :
      Files
      → Bytes
      → Bytes
      → ℕ
      → Result Bytes
      → (Bytes → Bytes)
      → World
      → Result (Bytes × ℕ) × World
  issue f file_id user_id expires_at (fails_with err) hex w = (fails_with err, w)
  issue f file_id user_id expires_at (ok random) hex w =
      issued (download_url f file_id (hex random)) expires_at
        (backend.insert_download_token (token_params (hex random) file_id user_id expires_at) w)

  abbrev token_checked :
      Files
      → Bytes
      → Bytes
      → ℕ
      → Result Bytes
      → (Bytes → Bytes)
      → Option FileError
      → World
      → Result (Bytes × ℕ) × World
  token_checked f file_id user_id expires_at read hex (some err) w = (fails_with err, w)
  token_checked f file_id user_id expires_at read hex none w =
      issue f file_id user_id expires_at read hex w

  unfoldable pub generate_download_token :
      Files
      → Bytes
      → Bytes
      → Bytes
      → ℤ
      → ℕ
      → Result Bytes
      → (Bytes → Bytes)
      → World
      → Result (Bytes × ℕ) × World
  unfolding check_ownership
  generate_download_token f plugin_key file_id user_id expiry now read hex w =
      if f.has_queries
      then token_checked f file_id user_id (now + default_unless_pos default_expiry expiry) read hex
          (check_ownership backend plugin_key file_id w) w
      else (fails_with not_configured, w)

  abbrev metadata_checked : Bytes → Option FileError → World → Result (Option FileRow)
  metadata_checked file_id (some err) w = ok none
  metadata_checked file_id none w = ok (meta_of (backend.get_file file_id w))

  unfoldable pub metadata : Files → Bytes → Bytes → World → Result (Option FileRow)
  unfolding check_ownership
  metadata f plugin_key file_id w =
      if f.has_queries
      then metadata_checked file_id (check_ownership backend plugin_key file_id w) w
      else fails_with not_configured
