-- ===== src/Gateway/Menu/Tests.antt =====
-- Runs of the merged menu.
use moduless.Base.{◌≡◌, refl, true, false, List, [], ◌∷◌, any, Bytes, bytes, pos}
use moduless.Manifest.Menus.{Menus, item, nil, cons}
use moduless.Gateway.Menu.{build_tree}
use moduless.Gateway.Menu.Paths.{has_chain, shows, has_chain-build_tree}

abbrev leaf : Bytes → List Bytes → Menus
leaf path roles = cons (item path path [] (pos 0) [] roles nil) nil

abbrev under : Bytes → Menus → Menus
under path children = cons (item path path [] (pos 0) [] [] children) nil

-- Two plugins below one parent, one of them for administrators.
abbrev both : List Menus
both =
    under (bytes "/system") (leaf (bytes "/b") [])
    ∷ under (bytes "/system") (leaf (bytes "/a") (bytes "admin" ∷ []))
    ∷ []

has_chain-build_tree_example :
    has_chain (bytes "/system" ∷ bytes "/a" ∷ []) (build_tree both (bytes "admin"))
    ≡ any (shows (bytes "admin") (bytes "/system" ∷ bytes "/a" ∷ [])) both
has_chain-build_tree_example =
    has_chain-build_tree (bytes "admin") (bytes "/system") (bytes "/a" ∷ []) both

merged : has_chain (bytes "/system" ∷ bytes "/a" ∷ []) (build_tree both (bytes "admin")) ≡ true
unfolding build_tree
merged = refl

hidden : has_chain (bytes "/system" ∷ bytes "/a" ∷ []) (build_tree both (bytes "user")) ≡ false
unfolding build_tree
hidden = refl
