-- ===== src/Manifest/Plugin/Tests.antt =====
-- Runs of the checks of a manifest and of its settings.
use moduless.Base.{◌≡◌, refl, false, bytes, some, [], ◌∷◌, lookup, Bytes}
use moduless.Manifest.Plugin.{ConfigDecl}
use moduless.Manifest.Plugin.Config.{merge_config}

abbrev level : Bytes → ConfigDecl
level default = record {
  key = bytes "level";
  label = [];
  description = [];
  type_name = [];
  default_value = default;
  required = false;
  secret = false;
}

-- A value that was cleared stays cleared.
cleared :
    lookup (bytes "level") (merge_config (level (bytes "info") ∷ []) ((bytes "level", []) ∷ []))
    ≡ some []
unfolding lookup merge_config
cleared = refl
