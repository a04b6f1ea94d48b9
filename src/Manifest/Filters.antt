-- ===== src/Manifest/Filters.antt =====
-- The filter declarations of manifest/plugin.go, compiled and matched. Upper case and white space
-- are those of ASCII.
use moduless.Base.{
  ℕ, ◌-◌, ◌≡◌, inl, inr, Bool, true, ◌&&◌, ◌||◌, Option, none, some, List, [], ◌∷◌, ◌++◌,
  if◌then◌else◌, leb, ◌==◌, any, Bytes, ◌=?◌, is_empty, mem_bytes, ℤ, arith,
}
use mathlib.Core.List.{reverse}
use moduless.Pathmatch.Defs.{Set, Result, ok, err, compile_set, match_set}
use moduless.Pathmatch.Compiled.{Result-cases, covers_path, match_set-compile_set}

pub record FilterMatch : Type 0 where
  pub paths : List Bytes
  pub methods : List Bytes

pub record FilterDecl : Type 0 where
  pub name : Bytes
  pub phase : Bytes
  pub match : FilterMatch
  pub order : ℤ
  pub fail_closed : Bool
  pub timeout_ms : ℤ
  pub needs_request_body : Bool
  pub needs_response_body : Bool
  pub max_body_bytes : ℤ

-- `methods` is `none` for all methods.
pub record CompiledFilter : Type 0 where
  pub decl : FilterDecl
  pub paths : Set
  pub methods : Option (List Bytes)

abbrev upper : ℕ → ℕ
upper c = if leb b'a' c && leb c b'z' then c - 32 else c

-- `strings.ToUpper`.
unfoldable pub to_upper : Bytes → Bytes
to_upper [] = []
to_upper (c ∷ s) = upper c ∷ to_upper s

abbrev pub is_space : ℕ → Bool
is_space c = c == 32 || leb 9 c && leb c 13

skip_space : Bytes → Bytes
skip_space [] = []
skip_space (c ∷ s) = if is_space c then skip_space s else c ∷ s

-- `strings.TrimSpace`.
unfoldable pub trim_space : Bytes → Bytes
unfolding skip_space
trim_space s = reverse (skip_space (reverse (skip_space s)))

abbrev wildcard : Bytes
wildcard = b'*' ∷ []

-- The loop of `normalizeMethods`; the set is the list of its members.
unfoldable pub normalize_from : List Bytes → List Bytes → Option (List Bytes)
unfolding to_upper trim_space ◌=?◌
normalize_from set [] = some set
normalize_from set (raw ∷ raws) =
    let m = to_upper (trim_space raw) in
    if m =? wildcard || is_empty m then none else normalize_from (set ++ m ∷ []) raws

-- `normalizeMethods`.
unfoldable pub normalize_methods : List Bytes → Option (List Bytes)
unfolding normalize_from
normalize_methods [] = none
normalize_methods (m ∷ ms) = normalize_from [] (m ∷ ms)

-- `MatchesMethod`.
unfoldable pub matches_method : Option (List Bytes) → Bytes → Bool
unfolding mem_bytes
matches_method none method = true
matches_method (some methods) method = mem_bytes methods method

-- `CompiledFilter.Matches`.
unfoldable pub matches : CompiledFilter → Bytes → Bytes → Bool
unfolding matches_method match_set
matches c method path = matches_method c.methods method && match_set c.paths path

-- The body of the loop of `CompileFilters`.
unfoldable pub compile_filter : FilterDecl → Result CompiledFilter
unfolding compile_set normalize_methods
compile_filter f = elim (compile_set f.match.paths) [
  | err e ↦ err e
  | ok set ↦ ok (record { decl = f; paths = set; methods = normalize_methods f.match.methods })
]

-- The loop of `CompileFilters`.
unfoldable pub compile_filters_from :
    List CompiledFilter → List FilterDecl → Result (List CompiledFilter)
unfolding compile_filter
compile_filters_from out [] = ok out
compile_filters_from out (f ∷ fs) = elim (compile_filter f) [
  | err e ↦ err e
  | ok c ↦ compile_filters_from (out ++ c ∷ []) fs
]

-- `CompileFilters`.
unfoldable pub compile_filters : List FilterDecl → Result (List CompiledFilter)
unfolding compile_filters_from
compile_filters fs = compile_filters_from [] fs

compile_filter-parts :
    (f : FilterDecl) (c : CompiledFilter)
    → compile_filter f ≡ ok c
    → (compile_set f.match.paths ≡ ok c.paths)
      × (c.methods ≡ normalize_methods f.match.methods)
      × (c.decl ≡ f)
unfolding compile_filter
compile_filter-parts f c h = elim (Result-cases (compile_set f.match.paths)) [
  | inl (x, q) ↦ ground (arith, q)
  | inr (s, q) ↦ ground (arith, q)
]

-- A compiled filter applies to a request exactly when its normalised methods allow the method and
-- one of the declared paths, compiled alone, covers the path.
pub matches-compile_filter :
    (f : FilterDecl) (c : CompiledFilter) (method path : Bytes)
    → compile_filter f ≡ ok c
    → matches c method path ≡ (
        matches_method (normalize_methods f.match.methods) method
        && any (covers_path path) f.match.paths)
unfolding matches
matches-compile_filter f c method path h =
    let parts = compile_filter-parts f c h in
    rw parts.1 (rw (match_set-compile_set f.match.paths c.paths path parts.0))
