-- ===== src/Manifest/Plugin/Valid.antt =====
-- What `Validate` of manifest/plugin.go guarantees of the filters of a manifest.
use moduless.Base.{
  ◌≡◌, refl, inl, inr, Bool, true, ◌&&◌, none, some, List, [], ◌∷◌, ◌++◌, arith, Bytes, ◌=?◌, bytes,
  mem_bytes, negate, All, All-append, ◌∙◌, ℕ, zero, suc,
}
use moduless.Pathmatch.Defs.{Set, ok, compile_set}
use moduless.Pathmatch.Compiled.{Result-cases}
use moduless.Manifest.Filters.{
  FilterDecl, CompiledFilter, compile_filter, compile_filters_from, compile_filters,
  normalize_methods,
}
use moduless.Manifest.Plugin.{
  Manifest, Check, first, filter_checks, manifest_checks, check_filter, check_filters, check_paths,
  known_phases, has_permission, filter_authenticate, validate, saw, ManifestError, fail_if,
  unknown_phase, authenticate_not_requested,
}

-- A check of a row, counted from 0.
abbrev check_at : ℕ → List Check → Check
check_at n [] = none
check_at zero (c ∷ cs) = c
check_at (suc n) (c ∷ cs) = check_at n cs

first-passes : (n : ℕ) (cs : List Check) → first cs ≡ none → check_at n cs ≡ none
first-passes n [] h = refl
first-passes n (some e ∷ cs) h = absurd (ground (arith, h))
first-passes zero (none ∷ cs) h = refl
first-passes (suc n) (none ∷ cs) h = first-passes n cs h

fail_if-negate : (b : Bool) (e : ManifestError) → fail_if (negate b) e ≡ none → b ≡ true
fail_if-negate b e h = ground (arith, h)

fail_if-unless :
    (a b : Bool) (e : ManifestError) → fail_if (a && negate b) e ≡ none → a ≡ true → b ≡ true
fail_if-unless a b e h k = ground (arith, h, k)

first-both : (a b : Check) → first (a ∷ b ∷ []) ≡ none → (a ≡ none) × (b ≡ none)
first-both none none h = (refl, refl)
first-both none (some e) h = absurd (ground (arith, h))
first-both (some e) b h = absurd (ground (arith, h))

-- Its phase is known, its paths compile, and it subscribes to `authenticate` only with the permission.
pub record IsAccepted (permissions : List Bytes) (f : FilterDecl) : Type 0 where
  pub phase_known : mem_bytes known_phases f.phase ≡ true
  pub paths_compile : (s : Set) × (compile_set f.match.paths ≡ ok s)
  pub allowed :
      f.phase =? bytes "authenticate" ≡ true → has_permission permissions filter_authenticate ≡ true

check_paths-none :
    (paths : List Bytes) → check_paths paths ≡ none → (s : Set) × (compile_set paths ≡ ok s)
unfolding check_paths
check_paths-none paths h = elim (Result-cases (compile_set paths)) [
  | inl (e, q) ↦ absurd (ground (arith, h, q))
  | inr (s, q) ↦ (s, q)
]

check_filter-IsAccepted :
    (permissions seen : List Bytes) (f : FilterDecl)
    → check_filter permissions seen f ≡ none
    → IsAccepted permissions f
unfolding check_filter filter_checks
check_filter-IsAccepted permissions seen f h = record {
  phase_known =
      fail_if-negate _ unknown_phase (first-passes 0 (filter_checks permissions seen f) h);
  paths_compile =
      check_paths-none f.match.paths (first-passes 3 (filter_checks permissions seen f) h);
  allowed =
      fail_if-unless _ _ authenticate_not_requested
        (first-passes 4 (filter_checks permissions seen f) h);
}

pub check_filters-IsAccepted :
    (permissions seen : List Bytes) (fs : List FilterDecl)
    → check_filters permissions seen fs ≡ none
    → All (IsAccepted permissions) fs
unfolding check_filters
check_filters-IsAccepted permissions seen [] h = tt
check_filters-IsAccepted permissions seen (f ∷ fs) h =
    let (here, there) =
      first-both (check_filter permissions seen f) (check_filters permissions (saw f.name seen) fs)
        h in
    (
      check_filter-IsAccepted permissions seen f here,
      check_filters-IsAccepted permissions (saw f.name seen) fs there,
    )

pub validate-filters : (m : Manifest) → validate m ≡ none → All (IsAccepted m.permissions) m.filters
unfolding validate manifest_checks
validate-filters m h =
    check_filters-IsAccepted m.permissions [] m.filters (first-passes 4 (manifest_checks m) h)

-- The declaration of a compiled filter was accepted.
abbrev pub IsCompiled : List Bytes → CompiledFilter → Type 0
IsCompiled permissions cf = IsAccepted permissions cf.decl

compile_filter-IsCompiled :
    (permissions : List Bytes) (f : FilterDecl)
    → IsAccepted permissions f
    → (cf : CompiledFilter) × (compile_filter f ≡ ok cf) × IsCompiled permissions cf
unfolding compile_filter
compile_filter-IsCompiled permissions f h =
    let (set, e) = h.paths_compile in
    (
      record { decl = f; paths = set; methods = normalize_methods f.match.methods },
      ground (arith, e),
      h,
    )

compile_filters_from-next :
    (out : List CompiledFilter) (f : FilterDecl) (fs : List FilterDecl) (cf : CompiledFilter)
    → compile_filter f ≡ ok cf
    → compile_filters_from out (f ∷ fs) ≡ compile_filters_from (out ++ cf ∷ []) fs
unfolding compile_filters_from
compile_filters_from-next out f fs cf e = rw (e, compile_filters_from)

compile_filters_from-IsCompiled :
    (permissions : List Bytes) (out : List CompiledFilter) (fs : List FilterDecl)
    → All (IsCompiled permissions) out
    → All (IsAccepted permissions) fs
    → (cfs : List CompiledFilter) × (compile_filters_from out fs ≡ ok cfs)
      × All (IsCompiled permissions) cfs
unfolding compile_filters_from
compile_filters_from-IsCompiled permissions out [] done h = (out, refl, done)
compile_filters_from-IsCompiled permissions out (f ∷ fs) done h =
    let (cf, e, compiled) = compile_filter-IsCompiled permissions f h.0 in
    let (cfs, r, all) =
      compile_filters_from-IsCompiled permissions (out ++ cf ∷ []) fs
        (All-append (IsCompiled permissions) out (cf ∷ []) done (compiled, tt)) h.1 in
    (cfs, compile_filters_from-next out f fs cf e ∙ r, all)

-- The filters of a manifest that passes `Validate` compile, and the compiled ones keep what was
-- checked.
pub validate-compile_filters :
    (m : Manifest)
    → validate m ≡ none
    → (cfs : List CompiledFilter) × (compile_filters m.filters ≡ ok cfs)
      × All (IsCompiled m.permissions) cfs
unfolding compile_filters
validate-compile_filters m h =
    compile_filters_from-IsCompiled m.permissions [] m.filters tt (validate-filters m h)
