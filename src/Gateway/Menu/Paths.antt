-- ===== src/Gateway/Menu/Paths.antt =====
-- Which nodes the tree of `buildTree` of core/gateway/menu.go has.
use moduless.Base.{
  ◌≡◌, refl, ap, sym, ◌∙◌, inl, inr, Bool, true, false, ◌&&◌, ◌||◌, List, [], ◌∷◌, any, Bytes, ◌=?◌,
  =?→≡, arith, Bool-cases,
}
use moduless.Manifest.Menus.{MenuItem, item, Menus, nil, cons}
use moduless.Gateway.Menu.{
  role_allowed, filter_by_role, path_of, is_before, place_node, sort_menu_nodes, with_children,
  merge_at, merge_all, build_from, build_tree,
}

-- There is a node of the first path, and below it one of the second, and so on.
abbrev pub has_chain : List Bytes → Menus → Bool
has_chain [] nodes = true
has_chain (p ∷ ps) nil = false
has_chain (p ∷ ps) (cons (item path title icon order entry roles children) rest) =
    ((path =? p) && has_chain ps children) || has_chain (p ∷ ps) rest

-- The same in the menus that a plugin declares, through nodes that the role may see.
abbrev pub shows : Bytes → List Bytes → Menus → Bool
shows role [] nodes = true
shows role (p ∷ ps) nil = false
shows role (p ∷ ps) (cons (item path title icon order entry roles children) rest) =
    (role_allowed roles role && ((path =? p) && shows role ps children)) || shows role (p ∷ ps) rest

-- A chain that starts at the node.
abbrev at_node : Bytes → List Bytes → MenuItem → Bool
at_node p ps (item path title icon order entry roles children) =
    (path =? p) && has_chain ps children

has_chain-cons :
    (p : Bytes) (ps : List Bytes) (n : MenuItem) (rest : Menus)
    → has_chain (p ∷ ps) (cons n rest) ≡ (at_node p ps n || has_chain (p ∷ ps) rest)
has_chain-cons p ps (item path title icon order entry roles children) rest = refl

has_chain-filter_by_role :
    (role : Bytes) (ps : List Bytes) (nodes : Menus)
    → has_chain ps (filter_by_role role nodes) ≡ shows role ps nodes
unfolding filter_by_role
has_chain-filter_by_role role [] nodes = refl
has_chain-filter_by_role role (p ∷ ps) nil = refl
has_chain-filter_by_role role (p ∷ ps)
      (cons (item path title icon order entry roles children) rest) =
    ground (
      arith,
      has_chain-filter_by_role role ps children,
      has_chain-filter_by_role role (p ∷ ps) rest,
    )

has_chain-place_node :
    (p : Bytes) (ps : List Bytes) (n : MenuItem) (nodes : Menus)
    → has_chain (p ∷ ps) (place_node n nodes) ≡ (at_node p ps n || has_chain (p ∷ ps) nodes)
unfolding place_node
has_chain-place_node p ps n nil = has_chain-cons p ps n nil
has_chain-place_node p ps n (cons g rest) = elim (Bool-cases (is_before g n)) [
  | inl e ↦ rw e (
      has_chain-cons p ps g (place_node n rest)
      ∙ ground (arith, has_chain-place_node p ps n rest, has_chain-cons p ps g rest))
  | inr e ↦ rw e (has_chain-cons p ps n (cons g rest))
]

has_chain-sort_menu_nodes :
    (ps : List Bytes) (nodes : Menus) → has_chain ps (sort_menu_nodes nodes) ≡ has_chain ps nodes
unfolding sort_menu_nodes
has_chain-sort_menu_nodes [] nodes = refl
has_chain-sort_menu_nodes (p ∷ ps) nil = refl
has_chain-sort_menu_nodes (p ∷ ps) (cons n rest) =
    has_chain-place_node p ps n (sort_menu_nodes rest)
    ∙ ap (λ b. at_node p ps n || b) (has_chain-sort_menu_nodes (p ∷ ps) rest)
    ∙ sym (has_chain-cons p ps n rest)

abbrev children_of : MenuItem → Menus
children_of (item path title icon order entry roles children) = children

-- `f` adds the chains of `added`.
abbrev Adds : Menus → (Menus → Menus) → Type 0
Adds added f =
    (ps : List Bytes) (nodes : Menus)
    → has_chain ps (f nodes) ≡ (has_chain ps added || has_chain ps nodes)

at_node-with_children :
    (p : Bytes) (ps : List Bytes) (n : MenuItem) (f : Menus → Menus) (added : Menus)
    → Adds added f
    → at_node p ps (with_children n f)
      ≡ ((path_of n =? p) && (has_chain ps added || has_chain ps (children_of n)))
at_node-with_children p ps (item path title icon order entry roles children) f added a =
    ap (λ b. (path =? p) && b) (a ps children)

has_chain-empty :
    (ps : List Bytes) (nodes : Menus)
    → (has_chain ps nodes || has_chain ps nil) ≡ has_chain ps nodes
has_chain-empty [] nodes = refl
has_chain-empty (p ∷ ps) nodes = ground arith

at_node-parts :
    (p : Bytes) (ps : List Bytes) (n : MenuItem)
    → at_node p ps n ≡ ((path_of n =? p) && has_chain ps (children_of n))
at_node-parts p ps (item path title icon order entry roles children) = refl

with_children-const :
    (p : Bytes) (ps : List Bytes) (n : MenuItem) (nodes : Menus)
    → at_node p ps (with_children n (λ ch. nodes)) ≡ ((path_of n =? p) && has_chain ps nodes)
with_children-const p ps (item path title icon order entry roles children) nodes = refl

has_chain-merge_at :
    (p : Bytes) (ps : List Bytes) (node : MenuItem) (f : Menus → Menus) (siblings : Menus)
    → Adds (children_of node) f
    → has_chain (p ∷ ps) (merge_at node f siblings)
      ≡ (at_node p ps node || has_chain (p ∷ ps) siblings)
unfolding merge_at
has_chain-merge_at p ps node f nil a =
    has_chain-cons p ps (with_children node (λ ch. f nil)) nil
    ∙ ground (
      arith,
      with_children-const p ps node (f nil),
      a ps nil,
      has_chain-empty ps (children_of node),
      at_node-parts p ps node,
    )
has_chain-merge_at p ps node f (cons g rest) a = elim (Bool-cases (path_of g =? path_of node)) [
  | inl e ↦
      let same : path_of g ≡ path_of node = =?→≡ (path_of g) (path_of node) e in
      let tested : (path_of g =? p) ≡ (path_of node =? p) = ap (λ (q : Bytes). q =? p) same in
      rw e (
        has_chain-cons p ps (with_children g f) rest
        ∙ ground (
          arith,
          at_node-with_children p ps g f (children_of node) a,
          at_node-parts p ps node,
          at_node-parts p ps g,
          tested,
          has_chain-cons p ps g rest,
        ))
  | inr e ↦ rw e (
      has_chain-cons p ps g (merge_at node f rest)
      ∙ ground (arith, has_chain-merge_at p ps node f rest a, has_chain-cons p ps g rest))
]

has_chain-merge_all :
    (ps : List Bytes) (nodes siblings : Menus)
    → has_chain ps (merge_all nodes siblings) ≡ (has_chain ps nodes || has_chain ps siblings)
unfolding merge_all
has_chain-merge_all [] nodes siblings = refl
has_chain-merge_all (p ∷ ps) nil siblings = refl
has_chain-merge_all (p ∷ ps) (cons (item path title icon order entry roles children) rest)
      siblings =
    has_chain-merge_all (p ∷ ps) rest _
    ∙ ground (
      arith,
      has_chain-merge_at p ps (item path title icon order entry roles children)
          (λ under. sort_menu_nodes (merge_all children under)) siblings
          (λ qs nodes.
            has_chain-sort_menu_nodes qs (merge_all children nodes)
            ∙ has_chain-merge_all qs children nodes),
    )

has_chain-build_from :
    (role : Bytes) (p : Bytes) (ps : List Bytes) (root : Menus) (apps : List Menus)
    → has_chain (p ∷ ps) (build_from root apps role)
      ≡ (has_chain (p ∷ ps) root || any (shows role (p ∷ ps)) apps)
unfolding build_from
has_chain-build_from role p ps root [] = ground arith
has_chain-build_from role p ps root (menus ∷ apps) =
    has_chain-build_from role p ps (merge_all (filter_by_role role menus) root) apps
    ∙ ground (
      arith,
      has_chain-merge_all (p ∷ ps) (filter_by_role role menus) root,
      has_chain-filter_by_role role (p ∷ ps) menus,
    )

-- The tree for a role has a node at a chain of paths, from the root down, exactly when the menus of
-- one plugin declare one there through nodes that the role may see.
pub has_chain-build_tree :
    (role : Bytes) (p : Bytes) (ps : List Bytes) (apps : List Menus)
    → has_chain (p ∷ ps) (build_tree apps role) ≡ any (shows role (p ∷ ps)) apps
unfolding build_tree
has_chain-build_tree role p ps apps =
    has_chain-sort_menu_nodes (p ∷ ps) (build_from nil apps role)
    ∙ has_chain-build_from role p ps nil apps
