-- ===== src/Pluginhost/Package.antt =====
-- core/pluginhost/package.go, with `Load` of manifest/manifest.go: a plugin package is read from its
-- directory and checked. What the operating system answers about a directory is a record; the YAML
-- decoder, whose `none` is an error other than the end of the file, and SHA-256 are arguments.
use moduless.Base.{
  ℕ, Bool, true, false, ◌&&◌, ◌||◌, Option, none, some, List, [], ◌∷◌, ◌++◌, if◌then◌else◌, ltb,
  negate, Bytes, ◌=?◌, bytes, is_empty, split, Dict, insert,
}
use mathlib.Core.List.{reverse}
use moduless.Pathmatch.Defs.{Error, Result}
use moduless.Manifest.Filters.{CompiledFilter, compile_filters}
use moduless.Manifest.Menus.{validate_menus}
use moduless.Manifest.Plugin.{
  Manifest, ManifestError, validate, has_permission, filter_authenticate,
}
use moduless.Pipeline.Chain.{lt_bytes}
pub mod Checked
pub mod Sample
mod Tests

-- `os.FileInfo`, as far as it is read.
pub record FileInfo : Type 0 where
  pub is_dir : Bool
  pub is_executable : Bool

-- A package directory: its path, the size and the bytes of its manifest, and its other files by
-- their paths below it.
pub record Directory : Type 0 where
  pub dir : Bytes
  pub manifest_size : Option ℕ
  pub manifest_data : Option Bytes
  pub stat : Bytes → Option FileInfo
  pub read : Bytes → Option Bytes

-- `FrontendDir` is empty when there is none.
pub record Package : Type 0 where
  pub dir : Bytes
  pub manifest : Manifest
  pub binary_path : Bytes
  pub checksum : Bytes
  pub frontend_dir : Bytes
  pub filters : List CompiledFilter

pub data LoadError : Type 0 where
  too_large unreadable unparsable bad_menu_paths entrypoint_required no_entrypoint
        entrypoint_is_directory not_executable no_checksum key_mismatch :
      LoadError
  invalid : ManifestError → LoadError
  bad_filter : Error → LoadError

pub data Loaded {ℓ} (A : Type ℓ) : Type ℓ where
  loaded : A → Loaded A
  refused : LoadError → Loaded A

-- `p.AllowsIdentityMutation()`.
unfoldable pub allows_identity_mutation : Package → Bool
unfolding has_permission
allows_identity_mutation p = has_permission p.manifest.permissions filter_authenticate

abbrev pub without_last : List Bytes → List Bytes
without_last [] = []
without_last (last ∷ above) = above

-- `filepath.Clean("/" + path)`, as the list of its elements, the last one first: an empty element and
-- "." are dropped, and ".." takes one away.
unfoldable pub clean_from : List Bytes → List Bytes → List Bytes
unfolding ◌=?◌
clean_from kept [] = kept
clean_from kept (piece ∷ pieces) =
    clean_from
      (if is_empty piece || piece =? bytes "."
        then kept
        else if piece =? bytes ".."
        then without_last kept
        else piece ∷ kept)
      pieces

unfoldable pub clean_rooted : Bytes → List Bytes
unfolding clean_from split
clean_rooted path = reverse (clean_from [] (split path b'/'))

-- The elements as a path below a directory.
unfoldable pub below : Bytes → List Bytes → Bytes
below path [] = path
below path (piece ∷ pieces) = below (path ++ b'/' ∷ piece) pieces

abbrev pub max_manifest_bytes : ℕ
max_manifest_bytes = 1_048_576

abbrev is_over : Option ℕ → Bool
is_over none = false
is_over (some size) = ltb max_manifest_bytes size

module _ (decode : Bytes → Option Manifest) (sha256 : Bytes → Bytes) where
  -- `manifest.Load`.
  unfoldable pub load : Directory → Loaded Manifest
  unfolding validate_menus
  load d = if is_over d.manifest_size then refused too_large else elim d.manifest_data [
    | none ↦ refused unreadable
    | some data_bytes ↦ elim (decode data_bytes) [
      | none ↦ refused unparsable
      | some m ↦ if validate_menus m.menus then loaded m else refused bad_menu_paths
    ]
  ]

  abbrev pub frontend : Directory → Bytes
  frontend d = elim (d.stat (below d.dir (bytes "frontend" ∷ []))) [
    | none ↦ []
    | some info ↦ if info.is_dir then below d.dir (bytes "frontend" ∷ []) else []
  ]

  -- `LoadPackage` from the compiled filters on.
  unfoldable pub hash_package : Directory → Manifest → Bytes → List CompiledFilter → Loaded Package
  unfolding below
  hash_package d m binary filters = elim (d.read binary) [
    | none ↦ refused no_checksum
    | some content ↦ loaded (record {
      dir = d.dir;
      manifest = m;
      binary_path = binary;
      checksum = sha256 content;
      frontend_dir = frontend d;
      filters = filters;
    })
  ]

  -- `LoadPackage` from the entrypoint on.
  unfoldable pub open_package : Directory → Manifest → Loaded Package
  unfolding clean_rooted below compile_filters hash_package
  open_package d m =
      let binary = below d.dir (clean_rooted m.runtime.entrypoint) in
      if is_empty m.runtime.entrypoint then refused entrypoint_required else elim (d.stat binary) [
        | none ↦ refused no_entrypoint
        | some info ↦
            if info.is_dir
            then refused entrypoint_is_directory
            else if negate info.is_executable
            then refused not_executable
            else elim (compile_filters m.filters) [
              | Result.err e ↦ refused (bad_filter e)
              | Result.ok filters ↦ hash_package d m binary filters
            ]
      ]

  -- `LoadPackage`.
  unfoldable pub load_package : Directory → Loaded Package
  unfolding load validate open_package
  load_package d = elim (load d) [
    | refused e ↦ refused e
    | loaded m ↦ elim (validate m) [ some e ↦ refused (invalid e) | none ↦ open_package d m ]
  ]

-- An entry of the plugin directory; `has_manifest` is whether `os.Stat` finds its manifest.
pub record Entry : Type 0 where
  pub name : Bytes
  pub is_dir : Bool
  pub has_manifest : Bool
  pub content : Directory

-- `sort.Slice` by the key, as an insertion.
unfoldable pub place_package : Package → List Package → List Package
unfolding lt_bytes
place_package p [] = p ∷ []
place_package p (q ∷ qs) =
    if lt_bytes q.manifest.key p.manifest.key then q ∷ place_package p qs else p ∷ q ∷ qs

unfoldable pub sort_packages : List Package → List Package
unfolding place_package
sort_packages [] = []
sort_packages (p ∷ ps) = place_package p (sort_packages ps)

-- `os.ReadDir` of the plugin directory.
pub data Listing : Type 0 where
  missing unlistable : Listing
  entries : List Entry → Listing

-- A directory that does not hold the plugin of its name is a failure.
abbrev pub named : Bytes → Loaded Package → Loaded Package
named name (refused e) = refused e
named name (loaded p) = if p.manifest.key =? name then loaded p else refused key_mismatch

-- Where a round of the loop of `ScanPackages` puts what `LoadPackage` answers.
abbrev pub file_under :
    Bytes → Loaded Package → List Package × Dict LoadError → List Package × Dict LoadError
file_under name (refused e) (packages, failures) = (packages, insert name e failures)
file_under name (loaded p) (packages, failures) = (packages ++ p ∷ [], failures)

module _ (decode : Bytes → Option Manifest) (sha256 : Bytes → Bytes) where
  -- One round of the loop of `ScanPackages`.
  unfoldable pub scan_entry : List Package × Dict LoadError → Entry → List Package × Dict LoadError
  unfolding load_package insert ◌=?◌
  scan_entry found e =
      if e.is_dir && e.has_manifest
      then file_under e.name (named e.name (load_package decode sha256 e.content)) found
      else found

  -- The loop of `ScanPackages`.
  unfoldable pub scan_from :
      List Package × Dict LoadError → List Entry → List Package × Dict LoadError
  unfolding scan_entry
  scan_from found [] = found
  scan_from found (e ∷ es) = scan_from (scan_entry found e) es

  -- `ScanPackages`.
  unfoldable pub scan_packages : Listing → List Package × Dict LoadError
  unfolding scan_from sort_packages insert
  scan_packages missing = ([], [])
  scan_packages unlistable = ([], insert (bytes "*") unreadable [])
  scan_packages (entries es) =
      let (packages, failures) = scan_from ([], []) es in (sort_packages packages, failures)
