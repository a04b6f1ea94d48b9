-- ===== src/Manifest/Plugin.antt =====
-- The root of a manifest (manifest/manifest.go) and the checks that it must pass (`Validate` of
-- manifest/plugin.go), in the source's order. Core stores no plugin whose manifest fails them.
use moduless.Base.{
  ℕ, Bool, true, false, ◌&&◌, Option, none, some, List, [], ◌∷◌, if◌then◌else◌, ltb, length, Bytes,
  ◌=?◌, bytes, is_empty, mem_bytes, ℤ, pos, negsuc, negate, any, ◌==◌, ◌||◌,
}
use moduless.Pathmatch.Defs.{Error, Result, compile_set}
use moduless.Manifest.Filters.{FilterDecl, CompiledFilter}
use moduless.Manifest.Cron.{parse_schedule, CronError, Parsed}
use moduless.Manifest.Menus.{Menus, check_menu_size}
pub mod Valid
pub mod Config
mod Tests

pub record Runtime : Type 0 where
  pub entrypoint : Bytes
  pub args : List Bytes
  pub replicas : ℤ

pub record JobDecl : Type 0 where
  pub name : Bytes
  pub cron : Bytes

-- `type_name` is `Type`, and `default_value` is `Default`.
pub record ConfigDecl : Type 0 where
  pub key : Bytes
  pub label : Bytes
  pub description : Bytes
  pub type_name : Bytes
  pub default_value : Bytes
  pub required : Bool
  pub secret : Bool

pub record Index : Type 0 where
  pub fields : List Bytes
  pub unique : Bool

pub record Collection : Type 0 where
  pub name : Bytes
  pub indexes : List Index

-- `collections` is `Database.Collections`.
pub record Manifest : Type 0 where
  pub key : Bytes
  pub display_name : Bytes
  pub version : Bytes
  pub weight : ℤ
  pub runtime : Runtime
  pub permissions : List Bytes
  pub menus : Menus
  pub collections : List Collection
  pub filters : List FilterDecl
  pub jobs : List JobDecl
  pub egress_allow : List Bytes
  pub config : List ConfigDecl

pub data ManifestError : Type 0 where
  key_required bad_key version_required unknown_permission unknown_phase duplicate_filter no_paths
        authenticate_not_requested negative_timeout negative_max_body max_body_without_body
        job_without_name duplicate_job job_without_cron cron_not_requested egress_not_requested
        negative_replicas too_many_filters too_many_collections too_many_jobs too_many_config_keys
        bad_menus config_without_key duplicate_config unknown_type :
      ManifestError
  bad_paths : Error → ManifestError
  bad_cron : CronError → ManifestError

-- An error, or `none` for `nil`.
abbrev pub Check : Type 0
Check = Option ManifestError

-- `if failing { return e }`.
abbrev pub fail_if : Bool → ManifestError → Check
fail_if failing e = if failing then some e else none

-- Checks in a row: the first error is returned.
abbrev pub first : List Check → Check
first [] = none
first (none ∷ cs) = first cs
first (some e ∷ cs) = some e

abbrev pub filter_authenticate : Bytes
filter_authenticate = bytes "filter:authenticate"

-- `knownPermissions`.
abbrev known_permissions : List Bytes
known_permissions =
    bytes "db"
    ∷ bytes "db:tx"
    ∷ bytes "queue"
    ∷ bytes "cache"
    ∷ bytes "lock"
    ∷ bytes "cron"
    ∷ bytes "events"
    ∷ bytes "files:read"
    ∷ bytes "files:write"
    ∷ bytes "http:egress"
    ∷ filter_authenticate
    ∷ []

-- `knownPhases`.
abbrev pub known_phases : List Bytes
known_phases =
    bytes "pre_route"
    ∷ bytes "authenticate"
    ∷ bytes "authorize"
    ∷ bytes "pre_handler"
    ∷ bytes "post_handler"
    ∷ bytes "on_error"
    ∷ bytes "log"
    ∷ []

-- `ConfigTypes`.
abbrev config_types : List Bytes
config_types = bytes "string" ∷ bytes "int" ∷ bytes "bool" ∷ bytes "duration" ∷ bytes "text" ∷ []

-- `HasPermission`, on the permissions of the manifest.
unfoldable pub has_permission : List Bytes → Bytes → Bool
unfolding mem_bytes
has_permission permissions perm = mem_bytes permissions perm

-- The bytes of `"/\\. "`: a slash, a backslash, a dot and a space.
abbrev is_separator : ℕ → Bool
is_separator c = c == b'/' || c == 92 || c == b'.' || c == 32

abbrev is_negative : ℤ → Bool
is_negative (pos n) = false
is_negative (negsuc n) = true

abbrev is_positive : ℤ → Bool
is_positive (pos n) = ltb 0 n
is_positive (negsuc n) = false

abbrev is_nil {ℓ} : {A : Type ℓ} → List A → Bool
is_nil [] = true
is_nil (x ∷ xs) = false

unfoldable pub check_permissions : List Bytes → Check
unfolding mem_bytes
check_permissions [] = none
check_permissions (p ∷ ps) = first (
    fail_if (negate (mem_bytes known_permissions p)) unknown_permission ∷ check_permissions ps ∷ [])

-- `pathmatch.CompileSet` of a filter's paths.
unfoldable pub check_paths : List Bytes → Check
unfolding compile_set
check_paths paths = elim (compile_set paths) [
  | Result.err e ↦ some (bad_paths e)
  | Result.ok set ↦ none
]

-- `seenFilter[f.Name] = struct{}{}`, for a name that is not empty.
abbrev pub saw : Bytes → List Bytes → List Bytes
saw name seen = if is_empty name then seen else name ∷ seen

-- The body of the loop on the filters: its tests, in order.
unfoldable pub filter_checks : List Bytes → List Bytes → FilterDecl → List Check
unfolding mem_bytes check_paths has_permission ◌=?◌
filter_checks permissions seen f =
    fail_if (negate (mem_bytes known_phases f.phase)) unknown_phase
    ∷ fail_if (negate (is_empty f.name) && mem_bytes seen f.name) duplicate_filter
    ∷ fail_if (is_nil f.match.paths) no_paths
    ∷ check_paths f.match.paths
    ∷ fail_if
        ((f.phase =? bytes "authenticate")
          && negate (has_permission permissions filter_authenticate))
        authenticate_not_requested
    ∷ fail_if (is_negative f.timeout_ms) negative_timeout
    ∷ fail_if (is_negative f.max_body_bytes) negative_max_body
    ∷ fail_if (is_positive f.max_body_bytes && negate f.needs_request_body) max_body_without_body
    ∷ []

unfoldable pub check_filter : List Bytes → List Bytes → FilterDecl → Check
unfolding filter_checks
check_filter permissions seen f = first (filter_checks permissions seen f)

unfoldable pub check_filters : List Bytes → List Bytes → List FilterDecl → Check
unfolding check_filter
check_filters permissions seen [] = none
check_filters permissions seen (f ∷ fs) =
    first (check_filter permissions seen f ∷ check_filters permissions (saw f.name seen) fs ∷ [])

-- `ParseSchedule` of a job's expression.
unfoldable pub check_cron : Bytes → Check
unfolding parse_schedule
check_cron expr = elim (parse_schedule expr) [
  | Parsed.err e ↦ some (bad_cron e)
  | Parsed.ok s ↦ none
]

unfoldable pub check_jobs : List Bytes → List JobDecl → Check
unfolding mem_bytes check_cron
check_jobs seen [] = none
check_jobs seen (j ∷ js) = first (
    fail_if (is_empty j.name) job_without_name
    ∷ fail_if (mem_bytes seen j.name) duplicate_job
    ∷ fail_if (is_empty j.cron) job_without_cron
    ∷ check_cron j.cron
    ∷ check_jobs (j.name ∷ seen) js
    ∷ [])

unfoldable pub check_config : List Bytes → List ConfigDecl → Check
unfolding mem_bytes
check_config seen [] = none
check_config seen (c ∷ cs) = first (
    fail_if (is_empty c.key) config_without_key
    ∷ fail_if (mem_bytes seen c.key) duplicate_config
    ∷ fail_if (negate (is_empty c.type_name) && negate (mem_bytes config_types c.type_name))
        unknown_type
    ∷ check_config (c.key ∷ seen) cs
    ∷ [])

-- The tests of `Validate`, in order.
unfoldable pub manifest_checks : Manifest → List Check
unfolding check_permissions check_filters check_jobs check_config check_menu_size has_permission
manifest_checks m =
    fail_if (is_empty m.key) key_required
    ∷ fail_if (any is_separator m.key) bad_key
    ∷ fail_if (is_empty m.version) version_required
    ∷ check_permissions m.permissions
    ∷ check_filters m.permissions [] m.filters
    ∷ check_jobs [] m.jobs
    ∷ fail_if (negate (is_nil m.jobs) && negate (has_permission m.permissions (bytes "cron")))
        cron_not_requested
    ∷ fail_if
        (negate (is_nil m.egress_allow)
          && negate (has_permission m.permissions (bytes "http:egress")))
        egress_not_requested
    ∷ fail_if (is_negative m.runtime.replicas) negative_replicas
    ∷ fail_if (ltb 64 (length m.filters)) too_many_filters
    ∷ fail_if (ltb 64 (length m.collections)) too_many_collections
    ∷ fail_if (ltb 64 (length m.jobs)) too_many_jobs
    ∷ fail_if (ltb 128 (length m.config)) too_many_config_keys
    ∷ fail_if (negate (check_menu_size m.menus)) bad_menus
    ∷ check_config [] m.config
    ∷ []

-- `Validate`.
unfoldable pub validate : Manifest → Check
unfolding manifest_checks
validate m = first (manifest_checks m)

-- `ReplicaCount`.
unfoldable pub replica_count : Manifest → ℕ
replica_count m = elim m.runtime.replicas [ pos n ↦ if n == 0 then 1 else n | negsuc n ↦ 1 ]
