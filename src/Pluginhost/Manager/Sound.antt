-- ===== src/Pluginhost/Manager/Sound.antt =====
-- Packages as `LoadPackage` and `ScanPackages` of core/pluginhost/package.go give them: their filters are
-- those that their permissions allow.
use moduless.Base.{
  ◌≡◌, inl, inr, ap, sym, ◌∙◌, Option, List, [], ◌∷◌, Bytes, ◌=?◌, All, All-append, Bool-cases,
  Dict, insert, ◌&&◌,
}
use moduless.Pathmatch.Defs.{Result}
use moduless.Manifest.Filters.{CompiledFilter}
use moduless.Manifest.Plugin.{Manifest, has_permission, filter_authenticate}
use moduless.Manifest.Plugin.Valid.{IsCompiled, validate-compile_filters}
use moduless.Pipeline.Chain.{lt_bytes}
use moduless.Pipeline.Chain.Known.{IsKnown}
use moduless.Pluginhost.Package.{
  Directory, Package, LoadError, Loaded, loaded, refused, Listing, entries, missing, unlistable,
  Entry, scan_packages, scan_entry, scan_from, sort_packages, place_package, load_package,
  allows_identity_mutation, named, file_under,
}
use moduless.Pluginhost.Package.Checked.{IsChecked, load_package-IsChecked, Loaded-cases}
use moduless.Pluginhost.Manager.{packages_from}
use moduless.Pluginhost.Manager.Chained.{IsSoundPackage, AllValues, insert-AllValues}

abbrev ok_or : List CompiledFilter → Result (List CompiledFilter) → List CompiledFilter
ok_or cfs (Result.ok found) = found
ok_or cfs (Result.err e) = cfs

ok_inj : (cfs ds : List CompiledFilter) → Result.ok cfs ≡ Result.ok ds → cfs ≡ ds
ok_inj cfs ds h = ap (ok_or cfs) h

All-IsKnown :
    (permissions : List Bytes) (cfs : List CompiledFilter)
    → All (IsCompiled permissions) cfs
    → All (IsKnown (has_permission permissions filter_authenticate)) cfs
All-IsKnown permissions [] h = tt
All-IsKnown permissions (cf ∷ cfs) h =
    (record { known = h.0.phase_known; allowed = h.0.allowed }, All-IsKnown permissions cfs h.1)

IsChecked-IsSoundPackage :
    (sha256 : Bytes → Bytes) (d : Directory) (p : Package) → IsChecked sha256 d p → IsSoundPackage p
unfolding allows_identity_mutation
IsChecked-IsSoundPackage sha256 d p c =
    let (cfs, e, all) = validate-compile_filters p.manifest c.valid in
    rw (sym (ok_inj cfs p.filters (sym e ∙ c.compiled)))
      (All-IsKnown p.manifest.permissions cfs all)

-- What `LoadPackage` answers is sound, if it is a package.
abbrev pub IsSoundLoaded : Loaded Package → Type 0
IsSoundLoaded (refused e) = Unit
IsSoundLoaded (loaded p) = IsSoundPackage p

named-IsSoundLoaded :
    (name : Bytes) (w : Loaded Package) → IsSoundLoaded w → IsSoundLoaded (named name w)
named-IsSoundLoaded name (refused e) h = tt
named-IsSoundLoaded name (loaded p) h = elim (Bool-cases (p.manifest.key =? name)) [
  | inl e ↦ rw e h
  | inr e ↦ rw e tt
]

file_under-IsSoundPackage :
    (name : Bytes) (w : Loaded Package) (found : List Package × Dict LoadError)
    → IsSoundLoaded w
    → All IsSoundPackage found.0
    → All IsSoundPackage (file_under name w found).0
file_under-IsSoundPackage name (refused e) (packages, failures) h k = k
file_under-IsSoundPackage name (loaded p) (packages, failures) h k =
    All-append IsSoundPackage packages (p ∷ []) k (h, tt)

All-place_package :
    (p : Package) (qs : List Package)
    → IsSoundPackage p
    → All IsSoundPackage qs
    → All IsSoundPackage (place_package p qs)
unfolding place_package
All-place_package p [] h k = (h, tt)
All-place_package p (q ∷ qs) h k = elim (Bool-cases (lt_bytes q.manifest.key p.manifest.key)) [
  | inl e ↦ rw e (k.0, All-place_package p qs h k.1)
  | inr e ↦ rw e (h, k)
]

All-sort_packages :
    (ps : List Package) → All IsSoundPackage ps → All IsSoundPackage (sort_packages ps)
unfolding sort_packages
All-sort_packages [] h = tt
All-sort_packages (p ∷ ps) h = All-place_package p (sort_packages ps) h.0 (All-sort_packages ps h.1)

pub packages_from-AllValues :
    (found : Dict Package) (ps : List Package)
    → AllValues IsSoundPackage found
    → All IsSoundPackage ps
    → AllValues IsSoundPackage (packages_from found ps)
unfolding packages_from
packages_from-AllValues found [] h k = h
packages_from-AllValues found (p ∷ ps) h k =
    packages_from-AllValues (insert p.manifest.key p found) ps
      (insert-AllValues IsSoundPackage p.manifest.key p found k.0 h) k.1

module _ (decode : Bytes → Option Manifest) (sha256 : Bytes → Bytes) where
  pub load_package-IsSoundLoaded : (d : Directory) → IsSoundLoaded (load_package decode sha256 d)
  load_package-IsSoundLoaded d = elim (Loaded-cases (load_package decode sha256 d)) [
    | inl (x, e) ↦ rw e tt
    | inr (p, e) ↦
        rw e (IsChecked-IsSoundPackage sha256 d p (load_package-IsChecked decode sha256 d p e))
  ]

  scan_entry-IsSoundPackage :
      (found : List Package × Dict LoadError) (e : Entry)
      → All IsSoundPackage found.0
      → All IsSoundPackage (scan_entry decode sha256 found e).0
  unfolding scan_entry
  scan_entry-IsSoundPackage found e h = elim (Bool-cases (e.is_dir && e.has_manifest)) [
    | inr q ↦ rw (q, scan_entry) h
    | inl q ↦
        rw (q, scan_entry)
          (file_under-IsSoundPackage e.name (named e.name (load_package decode sha256 e.content))
            found
            (named-IsSoundLoaded e.name (load_package decode sha256 e.content)
              (load_package-IsSoundLoaded e.content))
            h)
  ]

  scan_from-IsSoundPackage :
      (found : List Package × Dict LoadError) (es : List Entry)
      → All IsSoundPackage found.0
      → All IsSoundPackage (scan_from decode sha256 found es).0
  unfolding scan_from
  scan_from-IsSoundPackage found [] h = h
  scan_from-IsSoundPackage found (e ∷ es) h =
      scan_from-IsSoundPackage (scan_entry decode sha256 found e) es
        (scan_entry-IsSoundPackage found e h)

  pub scan_packages-IsSoundPackage :
      (listing : Listing) → All IsSoundPackage (scan_packages decode sha256 listing).0
  unfolding scan_packages
  scan_packages-IsSoundPackage missing = tt
  scan_packages-IsSoundPackage unlistable = tt
  scan_packages-IsSoundPackage (entries es) =
      All-sort_packages (scan_from decode sha256 ([], []) es).0
        (scan_from-IsSoundPackage ([], []) es tt)
