-- ===== src/Hostsvc/Files.antt =====
-- The files of plugins: core/hostsvc/files.go, here the store's state, Put and checkOwnership. `Backend` is what the object store and PostgreSQL do
-- with the calls of the source, each field one call; an error is its text. The file's id, the bytes
-- of a token and clock readings are arguments, and `hex` is hex.EncodeToString.
pub mod Access
pub mod Calls
pub mod Written
pub mod Hidden
mod Tests
use moduless.Base.{
  ℕ, zero, suc, ◌+◌, ◌-◌, ◌*◌, ◌^◌, Bool, true, false, ◌&&◌, List, [], ◌∷◌, ◌++◌, if◌then◌else◌,
  Bytes, bytes, ◌=?◌, Option, none, some, ℤ, pos, negsuc, default_unless_pos, ltb, leb, length,
  take,
}

-- What a query for one row gives.
pub data Answer {ℓ} (A : Type ℓ) : Type ℓ where
  row : A → Answer A
  no_rows : Answer A
  query_failed : Bytes → Answer A

pub record FileRow : Type 0 where
  pub ident : Bytes
  pub filename : Bytes
  pub size : ℕ
  pub mime_type : Bytes

pub record InsertFileParams : Type 0 where
  pub ident : Bytes
  pub filename : Bytes
  pub size : ℕ
  pub mime_type : Bytes
  pub storage_key : Bytes
  pub uploader_id : Bytes
  pub owner_plugin_key : Bytes

pub record InsertDownloadTokenParams : Type 0 where
  pub token : Bytes
  pub file_id : Bytes
  pub user_id : Bytes
  pub expires_at : ℕ

pub record Backend (World : Type 0) : Type 0 where
  pub put_object : Bytes → Bytes → ℕ → Bytes → World → Option Bytes × World
  pub insert_file : InsertFileParams → World → Option Bytes × World
  pub get_file : Bytes → World → Answer FileRow
  pub get_file_owner : Bytes → World → Answer Bytes
  pub insert_download_token : InsertDownloadTokenParams → World → Option Bytes × World
  pub delete_file_record : Bytes → World → Option Bytes × World

-- `has_store`, `has_queries` and `has_conn` tell that `store`, `q` and `conn` are set.
pub record Files : Type 0 where
  pub has_conn : Bool
  pub has_queries : Bool
  pub has_store : Bool
  pub max_upload_bytes : ℤ
  pub public_base_url : Bytes

pub data FileError : Type 0 where
  not_configured : FileError
  file_not_found : Bytes → FileError
  file_too_large : ℕ → FileError
  failed : Bytes → Bytes → FileError

pub data Result {ℓ} (A : Type ℓ) : Type ℓ where
  ok : A → Result A
  fails_with : FileError → Result A

abbrev pub default_max_upload_bytes : ℕ
default_max_upload_bytes = 67108864

abbrev new_files : Bool → Bool → Bool → Files
new_files has_conn has_queries has_store = record {
  has_conn = has_conn;
  has_queries = has_queries;
  has_store = has_store;
  max_upload_bytes = pos default_max_upload_bytes;
  public_base_url = [];
}

abbrev pub max_upload : Files → ℕ
max_upload f = default_unless_pos default_max_upload_bytes f.max_upload_bytes

-- A reader gives its content, then an error or the end.
pub record Reader : Type 0 where
  pub content : Bytes
  pub failure : Option Bytes

-- `f.maxUpload()+1` as an int64, of which io.LimitReader reads nothing where it is negative.
abbrev pub read_limit : ℕ → ℕ
read_limit max = if ltb max (2 ^ 63 - 1) then max + 1 else 0

-- `io.Copy` from the limited reader.
unfoldable pub copy_limited : ℕ → Reader → Bytes × Option Bytes
copy_limited limit r =
    if leb limit (length r.content) then (take limit r.content, none) else (r.content, r.failure)

abbrev pub or_default : Bytes → Bytes → Bytes
or_default fallback [] = fallback
or_default fallback (c ∷ s) = c ∷ s

abbrev pub storage_key_of : Bytes → Bytes → Bytes
storage_key_of plugin_key file_id = bytes "plugins/" ++ plugin_key ++ b'/' ∷ file_id

abbrev pub insert_params : Bytes → Bytes → Bytes → Bytes → ℕ → InsertFileParams
insert_params plugin_key file_id filename mime_type size = record {
  ident = file_id;
  filename = filename;
  size = size;
  mime_type = mime_type;
  storage_key = storage_key_of plugin_key file_id;
  uploader_id = [];
  owner_plugin_key = plugin_key;
}

module _ {World : Type 0} (backend : Backend World) where
  abbrev pub recorded : Bytes → ℕ → Option Bytes × World → Result (Bytes × ℕ) × World
  recorded file_id size (none, w) = (ok (file_id, size), w)
  recorded file_id size (some err, w) = (fails_with (failed (bytes "record file") err), w)

  abbrev pub stored :
      Bytes → Bytes → Bytes → Bytes → ℕ → Option Bytes × World → Result (Bytes × ℕ) × World
  stored plugin_key file_id filename mime_type size (none, w) =
      recorded file_id size
        (backend.insert_file (insert_params plugin_key file_id filename mime_type size) w)
  stored plugin_key file_id filename mime_type size (some err, w) =
      (fails_with (failed (bytes "store object") err), w)

  -- `Put` from its read on.
  unfoldable pub put_copied :
      ℕ → Bytes → Bytes → Bytes → Bytes → Bytes × Option Bytes → World → Result (Bytes × ℕ) × World
  put_copied max plugin_key file_id filename mime_type (content, some err) w =
      (fails_with (failed (bytes "read upload") err), w)
  put_copied max plugin_key file_id filename mime_type (content, none) w =
      if ltb max (length content)
      then (fails_with (file_too_large max), w)
      else stored plugin_key file_id filename mime_type (length content) (
          backend.put_object (storage_key_of plugin_key file_id) content (length content) mime_type
            w)

  unfoldable pub put :
      Files → Bytes → Bytes → Bytes → Bytes → Reader → World → Result (Bytes × ℕ) × World
  unfolding put_copied copy_limited
  put f plugin_key file_id filename mime_type r w =
      if f.has_store && f.has_queries
      then put_copied (max_upload f) plugin_key file_id (or_default (bytes "untitled") filename)
          (or_default (bytes "application/octet-stream") mime_type)
          (copy_limited (read_limit (max_upload f)) r) w
      else (fails_with not_configured, w)

  abbrev owned_by : Bytes → Bytes → Answer Bytes → Option FileError
  owned_by plugin_key file_id no_rows = some (file_not_found file_id)
  owned_by plugin_key file_id (query_failed err) = some (failed (bytes "look up file owner") err)
  owned_by plugin_key file_id (row []) = none
  owned_by plugin_key file_id (row (c ∷ owner)) =
      if (c ∷ owner) =? plugin_key then none else some (file_not_found file_id)

  unfoldable pub check_ownership : Bytes → Bytes → World → Option FileError
  unfolding ◌=?◌
  check_ownership plugin_key file_id w =
      owned_by plugin_key file_id (backend.get_file_owner file_id w)
