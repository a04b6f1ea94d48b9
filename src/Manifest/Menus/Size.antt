-- ===== src/Manifest/Menus/Size.antt =====
-- What `checkMenuSize` of manifest/plugin.go lets through.
use moduless.Base.{
  ℕ, ◌+◌, ◌≤◌, ◌≡◌, ◌↔◌, ◌⊎◌, inl, inr, refl, ap, ◌∙◌, true, arith, ltb, leb, if◌then◌else◌,
  Bool-cases, Bytes, ℤ, List,
}
use moduless.Manifest.Menus.{
  item, Menus, nil, cons, Walk, within, failed, walk_nodes, check_menu_size, is_within, MenuError,
}

abbrev pub count : Menus → ℕ
count nil = 0
count (cons (item path title icon order entry roles children) rest) =
    1 + count children + count rest

abbrev greater : ℕ → ℕ → ℕ
greater a b = if leb a b then b else a

-- The levels of a tree; a list of leaves has one.
abbrev pub levels : Menus → ℕ
levels nil = 0
levels (cons (item path title icon order entry roles children) rest) =
    greater (1 + levels children) (levels rest)

abbrev total_of : Walk ℕ → ℕ
total_of (within n) = n
total_of (failed e) = 0

bounds : (d a b : ℕ) → d + greater a b ≤ 8 → (d + a ≤ 8) × (d + b ≤ 8)
bounds d a b h = (ground (arith, h), ground (arith, h))

bounds_greater : (d a b : ℕ) → d + a ≤ 8 → d + b ≤ 8 → d + greater a b ≤ 8
bounds_greater d a b h k = ground (arith, h, k)

Walk-cases : (w : Walk ℕ) → ((n : ℕ) × (w ≡ within n)) ⊎ ((e : MenuError) × (w ≡ failed e))
Walk-cases (within n) = inl (n, refl)
Walk-cases (failed e) = inr (e, refl)

module _ (depth total : ℕ) (path title icon : Bytes) (order : ℤ) (entry : Bytes)
    (roles : List Bytes) (children rest : Menus) where
  abbrev whole : Menus
  whole = cons (item path title icon order entry roles children) rest

  walk_nodes-next :
      (m : ℕ)
      → total + 1 ≤ 256
      → depth + 1 ≤ 8
      → walk_nodes (depth + 1) children (total + 1) ≡ within m
      → walk_nodes depth whole total ≡ walk_nodes depth rest m
  unfolding walk_nodes
  walk_nodes-next m t d e = ground (arith, t, d, e)

  within-walk_nodes_parts :
      (n : ℕ)
      → walk_nodes depth whole total ≡ within n
      → (total + 1 ≤ 256)
        × (depth + 1 ≤ 8)
        × (m : ℕ) × (walk_nodes (depth + 1) children (total + 1) ≡ within m)
        × (walk_nodes depth rest m ≡ within n)
  unfolding walk_nodes
  within-walk_nodes_parts n h = elim (Walk-cases (walk_nodes (depth + 1) children (total + 1))) [
    | inl (m, e) ↦ elim (Bool-cases (ltb 256 (total + 1))) [
      | inl t ↦ absurd (ground (arith, h, t))
      | inr t ↦ elim (Bool-cases (ltb 8 (depth + 1))) [
        | inl d ↦ absurd (ground (arith, h, t, d))
        | inr d ↦ (ground (arith, t), ground (arith, d), m, e, ground (arith, h, t, d, e))
      ]
    ]
    | inr (x, e) ↦ absurd (ground (arith, h, e))
  ]

walk_nodes-within :
    (depth total : ℕ) (nodes : Menus)
    → depth + levels nodes ≤ 8
    → total + count nodes ≤ 256
    → walk_nodes depth nodes total ≡ within (total + count nodes)
unfolding walk_nodes
walk_nodes-within depth total nil d t = ap within (omega arith)
walk_nodes-within depth total (cons (item path title icon order entry roles children) rest) d t =
    let (low, beside) = bounds depth (1 + levels children) (levels rest) d in
    walk_nodes-next depth total path title icon order entry roles children rest
      (total + 1 + count children) (omega (arith, t)) (omega (arith, low))
      (walk_nodes-within (depth + 1) (total + 1) children (omega (arith, low)) (omega (arith, t)))
    ∙ walk_nodes-within depth (total + 1 + count children) rest beside (omega (arith, t))
    ∙ ap within (omega arith)

within-walk_nodes :
    (depth total : ℕ) (nodes : Menus) (n : ℕ)
    → depth ≤ 8
    → total ≤ 256
    → walk_nodes depth nodes total ≡ within n
    → (n ≡ total + count nodes) × (depth + levels nodes ≤ 8) × (n ≤ 256)
unfolding walk_nodes
within-walk_nodes depth total nil n d t h =
    let e : total ≡ n = ap total_of h in (omega (arith, e), omega (arith, d), omega (arith, e, t))
within-walk_nodes depth total (cons (item path title icon order entry roles children) rest) n d t
      h =
    let (more, deeper, m, e, f) =
      within-walk_nodes_parts depth total path title icon order entry roles children rest n h in
    let (c, low, within_all) = within-walk_nodes (depth + 1) (total + 1) children m deeper more e in
    let (r, beside, small) = within-walk_nodes depth m rest n d within_all f in
    (
      omega (arith, c, r),
      bounds_greater depth (1 + levels children) (levels rest) (omega (arith, low)) beside,
      small,
    )

is_within-within : (w : Walk ℕ) → is_within w ≡ true → (n : ℕ) × (w ≡ within n)
is_within-within (within n) h = (n, refl)
is_within-within (failed e) h = absurd (ground (arith, h))

-- The menu tree of a manifest is let through exactly when it has at most 7 levels and at most 256
-- nodes.
pub check_menu_size_iff :
    (nodes : Menus) → check_menu_size nodes ≡ true ↔ (levels nodes ≤ 7) × (count nodes ≤ 256)
unfolding check_menu_size
check_menu_size_iff nodes = (
  λ h.
      let (n, e) = is_within-within (walk_nodes 1 nodes 0) h in
      let (c, low, small) = within-walk_nodes 1 0 nodes n (omega arith) (omega arith) e in
      (omega (arith, low), omega (arith, c, small)),
  λ (low, small).
      ap is_within (walk_nodes-within 1 0 nodes (omega (arith, low)) (omega (arith, small))),
)
