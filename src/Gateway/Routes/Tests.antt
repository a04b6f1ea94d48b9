-- ===== src/Gateway/Routes/Tests.antt =====
-- Paths that lead to a plugin.
use moduless.Base.{bytes, [], ◌∷◌, ◌≡◌, refl, some, none, pos, negsuc}
use moduless.Gateway.Routes.{split_plugin_path, normalize_status, trace_id_for}
use moduless.Gateway.Routes.Plain.{HasNoSlash, IsCleanPath, split_plugin_path-IsCleanPath}

climbs :
    split_plugin_path (bytes "/api/plugins/shop/a/../../../etc/")
    ≡ some (bytes "shop", bytes "/etc/")
unfolding split_plugin_path
climbs = refl

elsewhere : split_plugin_path (bytes "/api/menus") ≡ none
unfolding split_plugin_path
elsewhere = refl

negative_status : normalize_status (negsuc 0) ≡ pos 502
unfolding normalize_status
negative_status = refl

typo : normalize_status (pos 2000) ≡ pos 502
unfolding normalize_status
typo = refl

given_id : trace_id_for ((bytes "X-Request-Id", bytes "r1" ∷ []) ∷ []) (bytes "new") ≡ bytes "r1"
unfolding trace_id_for
given_id = refl

split_plugin_path-IsCleanPath_example : HasNoSlash (bytes "shop") × IsCleanPath (bytes "/etc/")
split_plugin_path-IsCleanPath_example =
    split_plugin_path-IsCleanPath (bytes "/api/plugins/shop/a/../../../etc/") (bytes "shop")
      (bytes "/etc/") climbs
