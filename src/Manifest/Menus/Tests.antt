-- ===== src/Manifest/Menus/Tests.antt =====
-- Runs of the tests of the menu tree.
use moduless.Base.{◌≡◌, refl, true, bytes, [], pos, zero, suc, ℕ}
use moduless.Manifest.Menus.{Menus, item, nil, cons, check_menu_size}

-- A chain of nodes, each the child of the one before.
abbrev nested : ℕ → Menus
nested zero = nil
nested (suc n) = cons (item (bytes "a") (bytes "A") [] (pos 0) [] [] (nested n)) nil

seven_pass : check_menu_size (nested 7) ≡ true
unfolding check_menu_size
seven_pass = refl
