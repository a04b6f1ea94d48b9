-- ===== src/Gateway/Menu.antt =====
-- core/gateway/menu.go: the menus of the plugins, cut down to what a role may see and merged into one
-- tree. A MenuNode has the fields of a MenuItem of the manifest.
use moduless.Base.{
  ◌≡◌, Bool, true, false, ◌&&◌, List, [], ◌∷◌, if◌then◌else◌, negate, Bytes, ◌=?◌, is_empty,
  mem_bytes, ℤ,
}
use moduless.Manifest.Menus.{MenuItem, item, Menus, nil, cons}
use moduless.Pipeline.Chain.{lt_bytes, lt_int, eq_int}
pub mod Visible
pub mod Paths
mod Tests

-- `roleAllowed`.
unfoldable pub role_allowed : List Bytes → Bytes → Bool
unfolding mem_bytes
role_allowed [] user_role = true
role_allowed (r ∷ roles) user_role =
    if is_empty user_role then false else mem_bytes (r ∷ roles) user_role

-- `filterByRole`.
unfoldable pub filter_by_role : Bytes → Menus → Menus
unfolding role_allowed
filter_by_role user_role nil = nil
filter_by_role user_role (cons (item path title icon order entry roles children) rest) =
    let kept = filter_by_role user_role children in
    let others = filter_by_role user_role rest in
    if role_allowed roles user_role
    then cons (item path title icon order entry roles kept) others
    else others

abbrev pub path_of : MenuItem → Bytes
path_of (item path title icon order entry roles children) = path

abbrev pub order_of : MenuItem → ℤ
order_of (item path title icon order entry roles children) = order

-- The comparison of `sortMenuNodes`.
unfoldable pub is_before : MenuItem → MenuItem → Bool
unfolding lt_bytes
is_before a b =
    if negate (eq_int (order_of a) (order_of b))
    then lt_int (order_of a) (order_of b)
    else lt_bytes (path_of a) (path_of b)

-- `sort.SliceStable`, as an insertion.
unfoldable pub place_node : MenuItem → Menus → Menus
unfolding is_before
place_node n nil = cons n nil
place_node n (cons g rest) =
    if is_before g n then cons g (place_node n rest) else cons n (cons g rest)

unfoldable pub sort_menu_nodes : Menus → Menus
unfolding place_node
sort_menu_nodes nil = nil
sort_menu_nodes (cons n rest) = place_node n (sort_menu_nodes rest)

abbrev pub with_children : MenuItem → (Menus → Menus) → MenuItem
with_children (item path title icon order entry roles children) f =
    item path title icon order entry roles (f children)

-- The first sibling of the node's path, its children changed by `f`; if there is none, the node without
-- its children is appended, and changed.
unfoldable pub merge_at : MenuItem → (Menus → Menus) → Menus → Menus
unfolding ◌=?◌
merge_at node f nil = cons (with_children node (λ ch. f nil)) nil
merge_at node f (cons g rest) =
    let further = merge_at node f rest in
    if path_of g =? path_of node then cons (with_children g f) rest else cons g further

-- `mergeInto` for each of the nodes in turn.
unfoldable pub merge_all : Menus → Menus → Menus
unfolding merge_at sort_menu_nodes
merge_all nil siblings = siblings
merge_all (cons (item path title icon order entry roles children) rest) siblings = merge_all rest (
    merge_at (item path title icon order entry roles children)
      (λ under. sort_menu_nodes (merge_all children under)) siblings)

-- The loop of `buildTree`.
unfoldable pub build_from : Menus → List Menus → Bytes → Menus
unfolding filter_by_role merge_all
build_from root [] user_role = root
build_from root (menus ∷ apps) user_role =
    build_from (merge_all (filter_by_role user_role menus) root) apps user_role

-- `buildTree`.
unfoldable pub build_tree : List Menus → Bytes → Menus
unfolding build_from sort_menu_nodes
build_tree apps user_role = sort_menu_nodes (build_from nil apps user_role)
