-- ===== src/Gateway/Routes.antt =====
-- The pure parts of core/gateway/plugin_handler.go: which plugin a path names, which status a
-- response has, and the id of a request.
pub mod Plain
mod Tests
use moduless.Base.{
  ℕ, suc, ◌+◌, ◌-◌, Bool, true, false, ◌&&◌, ◌||◌, negate, List, [], ◌∷◌, ◌++◌, if◌then◌else◌, ◌==◌,
  ltb, leb, Bytes, bytes, is_empty, ◌=?◌, has_prefix, has_suffix, split, length, drop, Option, none,
  some, lookup, ℤ, pos, negsuc, ltb_ℤ, eq_ℤ,
}
use moduless.Pipeline.Headers.{Headers}
use moduless.Pluginhost.Package.{clean_rooted, below}

abbrev pub plugin_api_prefix : Bytes
plugin_api_prefix = bytes "/api/plugins/"

-- The bytes before the first one that is `sep`, and those from it on; none where there is none.
unfoldable pub cut_at : ℕ → Bytes → Option (Bytes × Bytes)
cut_at sep [] = none
cut_at sep (c ∷ s) =
    let rest = cut_at sep s in
    if c == sep
    then some ([], c ∷ s)
    else elim rest [ none ↦ none | some (before, from) ↦ some (c ∷ before, from) ]

-- `path.Clean` of a path that starts with a slash.
unfoldable pub clean_path : Bytes → Bytes
unfolding clean_rooted below
clean_path sub =
    let cleaned = below [] (clean_rooted sub) in if is_empty cleaned then b'/' ∷ [] else cleaned

unfoldable pub clean_sub_path : Bytes → Bytes
unfolding clean_path has_suffix
clean_sub_path sub =
    let cleaned = clean_path sub in
    if has_suffix sub (b'/' ∷ []) && negate (has_suffix cleaned (b'/' ∷ []))
    then cleaned ++ (b'/' ∷ [])
    else cleaned

-- What `splitPluginPath` makes of the rest behind the prefix.
unfoldable pub split_rest : Bytes → Bytes × Bytes
unfolding cut_at clean_sub_path
split_rest rest = elim (cut_at b'/' rest) [
  | none ↦ (rest, b'/' ∷ [])
  | some (key, sub) ↦ (key, clean_sub_path sub)
]

-- `splitPluginPath`: the key and the path below it.
unfoldable pub split_plugin_path : Bytes → Option (Bytes × Bytes)
unfolding has_prefix split_rest
split_plugin_path p =
    let rest = drop (length plugin_api_prefix) p in
    if negate (has_prefix p plugin_api_prefix) || is_empty rest
    then none
    else some (split_rest rest)

unfoldable pub normalize_status : ℤ → ℤ
normalize_status code =
    if eq_ℤ code (pos 0)
    then pos 200
    else if ltb_ℤ code (pos 100) || ltb_ℤ (pos 599) code
    then pos 502
    else code

-- `Header.Get` of a canonical name.
abbrev pub first_value : Option (List Bytes) → Bytes
first_value none = []
first_value (some []) = []
first_value (some (v ∷ vs)) = v

-- The second field of a `traceparent`, where it is a trace id.
abbrev is_zero : Bytes → Bool
is_zero [] = true
is_zero (c ∷ s) = (c == b'0') && is_zero s

unfoldable pub trace_of : List Bytes → Bytes
trace_of (version ∷ trace ∷ span ∷ rest) =
    if length trace == 32 && negate (is_zero trace) then trace else []
trace_of (version ∷ trace ∷ []) = []
trace_of (version ∷ []) = []
trace_of [] = []

-- `traceIDFor`; `fresh` is the id that `newTraceID` makes.
unfoldable pub trace_id_for : Headers → Bytes → Bytes
unfolding lookup trace_of split
trace_id_for header fresh =
    let parent = first_value (lookup (bytes "Traceparent") header) in
    let given = first_value (lookup (bytes "X-Request-Id") header) in
    let trace = if is_empty parent then [] else trace_of (split parent b'-') in
    if negate (is_empty trace) then trace else if negate (is_empty given) then given else fresh
