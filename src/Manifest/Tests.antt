-- ===== src/Manifest/Tests.antt =====
-- Runs of the filter declarations.
use moduless.Base.{true, false, bytes, ◌∷◌, [], some, pos}
use moduless.Pathmatch.Defs.{Kind, literal_pattern}
use moduless.Manifest.Filters.{FilterDecl, CompiledFilter}

abbrev guard : FilterDecl
guard = record {
  name = bytes "guard";
  phase = bytes "authorize";
  match = record { paths = bytes "/api/**" ∷ []; methods = bytes " post" ∷ [] };
  order = pos 1;
  fail_closed = true;
  timeout_ms = pos 0;
  needs_request_body = false;
  needs_response_body = false;
  max_body_bytes = pos 0;
}

abbrev guard_compiled : CompiledFilter
guard_compiled = record {
  decl = guard;
  paths = record {
    patterns = literal_pattern (bytes "/api/**") Kind.prefix (bytes "/api") ∷ [];
    match_all = false;
  };
  methods = some (bytes "POST" ∷ []);
}
