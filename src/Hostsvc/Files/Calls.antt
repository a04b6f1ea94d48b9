-- ===== src/Hostsvc/Files/Calls.antt =====
-- The calls of a plugin about files: core/hostsvc/rpc_files.go, and `require` and `unavailable` of
-- core/hostsvc/server.go. A stream that a plugin sends is its chunks and, at its end, an error or
-- none.
use moduless.Base.{
  ℕ, ◌+◌, ◌*◌, ◌/◌, Bool, true, false, List, [], ◌∷◌, ◌++◌, if◌then◌else◌, Bytes, bytes, Option,
  none, some, ℤ, pos, negsuc, Dict, lookup, insert,
}
use moduless.Hostsvc.Files.{
  Backend, Files, FileError, not_configured, file_not_found, file_too_large, failed, Result, ok,
  fails_with, FileRow, Reader, put,
}
use moduless.Hostsvc.Files.Access.{delete, generate_download_token, metadata}

-- The codes of gRPC that the calls answer with.
pub data Code : Type 0 where
  permission_denied : Code
  unavailable : Code
  invalid_argument : Code
  not_found : Code
  internal : Code
  aborted : Code

-- What the text of a status tells.
pub data Reason : Type 0 where
  not_granted : Bytes → Reason
  not_running : Bytes → Reason
  no_content : Reason
  receive_failed : Bytes → Reason
  file_failed : FileError → Reason

pub record Status : Type 0 where
  pub code : Code
  pub reason : Reason

-- An answer of a call, or its status.
pub data Reply {ℓ} (A : Type ℓ) : Type ℓ where
  replies : A → Reply A
  refuses : Status → Reply A

-- `files` is `deps.Files`.
pub record Server : Type 0 where
  pub key : Bytes
  pub perms : Dict (Unit {0})
  pub files : Option Files

unfoldable pub new_perm_set : List Bytes → Dict (Unit {0})
unfolding insert
new_perm_set [] = []
new_perm_set (p ∷ perms) = insert p tt (new_perm_set perms)

abbrev pub is_granted : Option (Unit {0}) → Bool
is_granted none = false
is_granted (some u) = true

unfoldable pub has : Bytes → Dict (Unit {0}) → Bool
unfolding lookup
has perm perms = is_granted (lookup perm perms)

abbrev pub denied : Bytes → Status
denied perm = record { code = permission_denied; reason = not_granted perm }

-- `require`.
unfoldable pub require : Bytes → Server → Option Status
unfolding has
require perm srv = if has perm srv.perms then none else some (denied perm)

abbrev pub file_storage : Bytes
file_storage = bytes "file storage"

abbrev pub configured : Option Files → Reply Files
configured none = refuses (record { code = unavailable; reason = not_running file_storage })
configured (some f) = replies f

abbrev demanded : Option Status → Option Files → Reply Files
demanded (some status) files = refuses status
demanded none files = configured files

-- The first lines of each call: `require`, then the test of `deps.Files`.
unfoldable pub gate : Bytes → Server → Reply Files
unfolding require
gate perm srv = demanded (require perm srv) srv.files

abbrev pub code_of : FileError → Code
code_of (file_not_found file_id) = not_found
code_of (file_too_large max) = invalid_argument
code_of not_configured = internal
code_of (failed stage err) = internal

-- `fileErr`, of an error.
abbrev pub file_err : FileError → Status
file_err err = record { code = code_of err; reason = file_failed err }

abbrev pub reply_of {ℓ} : {A : Type ℓ} → Result A → Reply A
reply_of (ok a) = replies a
reply_of (fails_with err) = refuses (file_err err)

abbrev pub perm_files_read : Bytes
perm_files_read = bytes "files:read"

abbrev pub perm_files_write : Bytes
perm_files_write = bytes "files:write"

abbrev pub emptied : Option FileError → Reply (Unit {0})
emptied none = replies tt
emptied (some err) = refuses (file_err err)

-- The time is in nanoseconds, of which the reply carries the seconds.
abbrev pub token_reply : Result (Bytes × ℕ) → Reply (Bytes × ℕ)
token_reply (ok (url, expires_at)) = replies (url, expires_at / 1000000000)
token_reply (fails_with err) = refuses (file_err err)

pub record Chunk : Type 0 where
  pub filename : Bytes
  pub mime_type : Bytes
  pub content : Bytes

pub record Stream : Type 0 where
  pub chunks : List Chunk
  pub failure : Option Bytes

-- The buffer after the loop of `PutFile`.
unfoldable pub receive : List Chunk → Bytes
receive [] = []
receive (chunk ∷ chunks) = chunk.content ++ receive chunks

-- Seconds as a duration; an int32 of them does not overflow.
abbrev pub seconds : ℤ → ℤ
seconds (pos n) = pos (n * 1000000000)
seconds (negsuc n) = negsuc (n * 1000000000 + 999999999)

module _ {World : Type 0} (backend : Backend World) where
  abbrev put_received :
      Files → Bytes → Bytes → Chunk → List Chunk → Option Bytes → World → Reply (Bytes × ℕ) × World
  put_received f key file_id first chunks (some err) w =
      (refuses (record { code = aborted; reason = receive_failed err }), w)
  put_received f key file_id first chunks none w =
      let buf : Reader = record { content = receive (first ∷ chunks); failure = none } in
      let r = put backend f key file_id first.filename first.mime_type buf w in (reply_of r.0, r.1)

  abbrev put_stream :
      Files → Bytes → Bytes → List Chunk → Option Bytes → World → Reply (Bytes × ℕ) × World
  put_stream f key file_id [] failure w =
      (refuses (record { code = invalid_argument; reason = no_content }), w)
  put_stream f key file_id (first ∷ chunks) failure w =
      put_received f key file_id first chunks failure w

  abbrev put_gated : Reply Files → Bytes → Bytes → Stream → World → Reply (Bytes × ℕ) × World
  put_gated (refuses status) key file_id stream w = (refuses status, w)
  put_gated (replies f) key file_id stream w =
      put_stream f key file_id stream.chunks stream.failure w

  unfoldable pub put_file : Server → Bytes → Stream → World → Reply (Bytes × ℕ) × World
  unfolding gate receive put
  put_file srv file_id stream w = put_gated (gate perm_files_write srv) srv.key file_id stream w

  abbrev delete_gated : Reply Files → Bytes → Bytes → World → Reply (Unit {0}) × World
  delete_gated (refuses status) key file_id w = (refuses status, w)
  delete_gated (replies f) key file_id w =
      let r = delete backend f key file_id w in (emptied r.0, r.1)

  unfoldable pub delete_file : Server → Bytes → World → Reply (Unit {0}) × World
  unfolding gate delete
  delete_file srv file_id w = delete_gated (gate perm_files_write srv) srv.key file_id w

  abbrev token_gated :
      Reply Files
      → Bytes
      → Bytes
      → Bytes
      → ℤ
      → ℕ
      → Result Bytes
      → (Bytes → Bytes)
      → World
      → Reply (Bytes × ℕ) × World
  token_gated (refuses status) key file_id user_id expiry now read hex w = (refuses status, w)
  token_gated (replies f) key file_id user_id expiry now read hex w =
      let r =
        generate_download_token backend f key file_id user_id (seconds expiry) now read hex w in
      (token_reply r.0, r.1)

  unfoldable pub download_token :
      Server
      → Bytes
      → Bytes
      → ℤ
      → ℕ
      → Result Bytes
      → (Bytes → Bytes)
      → World
      → Reply (Bytes × ℕ) × World
  unfolding gate generate_download_token
  download_token srv file_id user_id expiry now read hex w =
      token_gated (gate perm_files_read srv) srv.key file_id user_id expiry now read hex w

  abbrev metadata_gated : Reply Files → Bytes → Bytes → World → Reply (Option FileRow)
  metadata_gated (refuses status) key file_id w = refuses status
  metadata_gated (replies f) key file_id w = reply_of (metadata backend f key file_id w)

  unfoldable pub get_file_metadata : Server → Bytes → World → Reply (Option FileRow)
  unfolding gate metadata
  get_file_metadata srv file_id w = metadata_gated (gate perm_files_read srv) srv.key file_id w
