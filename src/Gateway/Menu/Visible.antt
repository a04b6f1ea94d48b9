-- ===== src/Gateway/Menu/Visible.antt =====
-- What `buildTree` of core/gateway/menu.go puts into the tree.
use moduless.Base.{◌≡◌, inl, inr, true, List, [], ◌∷◌, Bytes, ◌=?◌, Bool-cases}
use moduless.Manifest.Menus.{MenuItem, item, Menus, nil, cons}
use moduless.Gateway.Menu.{
  role_allowed, filter_by_role, path_of, is_before, place_node, sort_menu_nodes, with_children,
  merge_at, merge_all, build_from, build_tree,
}

-- The role may see each node, and all nodes below it.
abbrev pub IsVisible : Bytes → Menus → Type 0
IsVisible role nil = Unit
IsVisible role (cons (item path title icon order entry roles children) rest) =
    ((role_allowed roles role ≡ true) × IsVisible role children) × IsVisible role rest

abbrev IsVisibleItem : Bytes → MenuItem → Type 0
IsVisibleItem role (item path title icon order entry roles children) =
    (role_allowed roles role ≡ true) × IsVisible role children

IsVisible-cons :
    (role : Bytes) (n : MenuItem) (rest : Menus)
    → IsVisibleItem role n
    → IsVisible role rest
    → IsVisible role (cons n rest)
IsVisible-cons role (item path title icon order entry roles children) rest h k = (h, k)

IsVisible-head :
    (role : Bytes) (n : MenuItem) (rest : Menus)
    → IsVisible role (cons n rest)
    → IsVisibleItem role n
IsVisible-head role (item path title icon order entry roles children) rest h = h.0

IsVisible-tail :
    (role : Bytes) (n : MenuItem) (rest : Menus)
    → IsVisible role (cons n rest)
    → IsVisible role rest
IsVisible-tail role (item path title icon order entry roles children) rest h = h.1

filter_by_role-IsVisible :
    (role : Bytes) (nodes : Menus) → IsVisible role (filter_by_role role nodes)
unfolding filter_by_role
filter_by_role-IsVisible role nil = tt
filter_by_role-IsVisible role (cons (item path title icon order entry roles children) rest) =
    elim (Bool-cases (role_allowed roles role)) [
      | inl e ↦
          rw e ((e, filter_by_role-IsVisible role children), filter_by_role-IsVisible role rest)
      | inr e ↦ rw e (filter_by_role-IsVisible role rest)
    ]

place_node-IsVisible :
    (role : Bytes) (n : MenuItem) (nodes : Menus)
    → IsVisibleItem role n
    → IsVisible role nodes
    → IsVisible role (place_node n nodes)
unfolding place_node
place_node-IsVisible role n nil h k = IsVisible-cons role n nil h tt
place_node-IsVisible role n (cons g rest) h k = elim (Bool-cases (is_before g n)) [
  | inl e ↦ rw e (
      IsVisible-cons role g (place_node n rest) (IsVisible-head role g rest k)
        (place_node-IsVisible role n rest h (IsVisible-tail role g rest k)))
  | inr e ↦ rw e (IsVisible-cons role n (cons g rest) h k)
]

sort_menu_nodes-IsVisible :
    (role : Bytes) (nodes : Menus) → IsVisible role nodes → IsVisible role (sort_menu_nodes nodes)
unfolding sort_menu_nodes
sort_menu_nodes-IsVisible role nil h = tt
sort_menu_nodes-IsVisible role (cons n rest) h =
    place_node-IsVisible role n (sort_menu_nodes rest) (IsVisible-head role n rest h)
      (sort_menu_nodes-IsVisible role rest (IsVisible-tail role n rest h))

-- A change of lists of siblings that shows the role nothing that it may not see.
abbrev KeepsVisible : Bytes → (Menus → Menus) → Type 0
KeepsVisible role f = (nodes : Menus) → IsVisible role nodes → IsVisible role (f nodes)

with_children-IsVisibleItem :
    (role : Bytes) (n : MenuItem) (f : Menus → Menus)
    → KeepsVisible role f
    → IsVisibleItem role n
    → IsVisibleItem role (with_children n f)
with_children-IsVisibleItem role (item path title icon order entry roles children) f k h =
    (h.0, k children h.1)

merge_at-IsVisible :
    (role : Bytes) (node : MenuItem) (f : Menus → Menus) (siblings : Menus)
    → KeepsVisible role f
    → IsVisibleItem role node
    → IsVisible role siblings
    → IsVisible role (merge_at node f siblings)
unfolding merge_at
merge_at-IsVisible role node f nil k h s =
    IsVisible-cons role (with_children node (λ ch. f nil)) nil
      (with_children-IsVisibleItem role node (λ ch. f nil) (λ nodes v. k nil tt) h) tt
merge_at-IsVisible role node f (cons g rest) k h s = elim (Bool-cases (path_of g =? path_of node)) [
  | inl e ↦ rw e (
      IsVisible-cons role (with_children g f) rest
        (with_children-IsVisibleItem role g f k (IsVisible-head role g rest s))
        (IsVisible-tail role g rest s))
  | inr e ↦ rw e (
      IsVisible-cons role g (merge_at node f rest) (IsVisible-head role g rest s)
        (merge_at-IsVisible role node f rest k h (IsVisible-tail role g rest s)))
]

merge_all-IsVisible :
    (role : Bytes) (nodes siblings : Menus)
    → IsVisible role nodes
    → IsVisible role siblings
    → IsVisible role (merge_all nodes siblings)
unfolding merge_all
merge_all-IsVisible role nil siblings h s = s
merge_all-IsVisible role (cons (item path title icon order entry roles children) rest) siblings h
      s =
    merge_all-IsVisible role rest _ h.1 (
      merge_at-IsVisible role (item path title icon order entry roles children)
        (λ under. sort_menu_nodes (merge_all children under)) siblings
        (λ nodes v.
          sort_menu_nodes-IsVisible role _ (merge_all-IsVisible role children nodes h.0.1 v))
        h.0 s)

build_from-IsVisible :
    (role : Bytes) (root : Menus) (apps : List Menus)
    → IsVisible role root
    → IsVisible role (build_from root apps role)
unfolding build_from
build_from-IsVisible role root [] h = h
build_from-IsVisible role root (menus ∷ apps) h =
    build_from-IsVisible role (merge_all (filter_by_role role menus) root) apps (
      merge_all-IsVisible role (filter_by_role role menus) root
        (filter_by_role-IsVisible role menus) h)

-- The tree for a role holds, at every depth, only nodes that the role may see.
pub build_tree-IsVisible :
    (role : Bytes) (apps : List Menus) → IsVisible role (build_tree apps role)
unfolding build_tree
build_tree-IsVisible role apps =
    sort_menu_nodes-IsVisible role (build_from nil apps role)
      (build_from-IsVisible role nil apps tt)
