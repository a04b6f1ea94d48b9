-- ===== src/Manifest/Menus.antt =====
-- The menu tree of a manifest (manifest/manifest.go), the test of its paths when it is loaded, and the
-- test of its size (`checkMenuSize` in manifest/plugin.go).
use moduless.Base.{
  ℕ, ◌+◌, Bool, true, false, ◌||◌, List, [], ◌∷◌, if◌then◌else◌, ltb, Bytes, is_empty, mem_bytes, ℤ,
}
pub mod Size
mod Tests

mutual
  pub data MenuItem : Type 0 where
    item : Bytes → Bytes → Bytes → ℤ → Bytes → List Bytes → Menus → MenuItem

  pub data Menus : Type 0 where
    nil : Menus
    cons : MenuItem → Menus → Menus

pub data MenuError : Type 0 where
  missing_path duplicate_path too_deep too_many : MenuError

-- `nil`, with what the loop carries along, or an error.
pub data Walk {ℓ} (A : Type ℓ) : Type ℓ where
  within : A → Walk A
  failed : MenuError → Walk A

-- The closure of `validateMenus`, with the set of paths seen.
unfoldable pub walk_paths : Menus → List Bytes → Walk (List Bytes)
unfolding mem_bytes
walk_paths nil seen = within seen
walk_paths (cons (item path title icon order entry roles children) rest) seen =
    if is_empty path
    then failed missing_path
    else if mem_bytes seen path
    then failed duplicate_path
    else elim (walk_paths children (path ∷ seen)) [
      | failed e ↦ failed e
      | within seen' ↦ walk_paths rest seen'
    ]

abbrev pub is_within {ℓ} : {A : Type ℓ} → Walk A → Bool
is_within (within a) = true
is_within (failed e) = false

-- `validateMenus`: whether it gives no error.
unfoldable pub validate_menus : Menus → Bool
unfolding walk_paths
validate_menus nodes = is_within (walk_paths nodes [])

abbrev pub max_menu_depth : ℕ
max_menu_depth = 8

abbrev pub max_menu_nodes : ℕ
max_menu_nodes = 256

-- The first test of the closure of `checkMenuSize`, before it goes through the nodes.
abbrev pub enter : ℕ → Walk ℕ → Walk ℕ
enter depth w = if ltb max_menu_depth depth then failed too_deep else w

-- The loop of the closure, at a depth and with the total so far.
unfoldable pub walk_nodes : ℕ → Menus → ℕ → Walk ℕ
walk_nodes depth nil total = within total
walk_nodes depth (cons (item path title icon order entry roles children) rest) total =
    if ltb max_menu_nodes (total + 1)
    then failed too_many
    else elim (enter (depth + 1) (walk_nodes (depth + 1) children (total + 1))) [
      | failed e ↦ failed e
      | within total' ↦ walk_nodes depth rest total'
    ]

-- `checkMenuSize`: whether it gives no error.
unfoldable pub check_menu_size : Menus → Bool
unfolding walk_nodes
check_menu_size nodes = is_within (enter 1 (walk_nodes 1 nodes 0))
