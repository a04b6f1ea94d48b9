-- ===== src/Db/Versions/Locking.antt =====
-- What a version protects from: optimistic locking of core/db/tx.go.
use moduless.Base.{
  ℕ, ◌+◌, ◌≤◌, ◌<◌, true, false, List, [], ◌∷◌, Bytes, Option, none, some, ◌==◌, ◌=?◌, =?→≡, ◌≡◌,
  ◌≢◌, inl, inr, sym, ◌∙◌, arith, Bool-cases, Option-cases, Bool, if◌then◌else◌, ◌&&◌, refl, ap,
  ==_iff, =?_refl,
}
use moduless.Db.Sql.{returns, table_name}
use moduless.Db.Sql.Tables.{Outcome-cases}
use moduless.Db.Versions.{
  Engine, put_in, put_versioned, Setting, set_content, increment_version, set_time, Condition,
  has_id, has_version, Statement, insert_or_set, set_where, upsert_statement, update_statement,
}

-- What a setting makes of a row's content and version.
abbrev pub set_one : Setting → Bytes × ℕ → Bytes × ℕ
set_one (set_content c) (d, v) = (c, v)
set_one increment_version (d, v) = (d, v + 1)
set_one set_time (d, v) = (d, v)

abbrev pub set_all : List Setting → Bytes × ℕ → Bytes × ℕ
set_all [] x = x
set_all (s ∷ ss) x = set_all ss (set_one s x)

-- Whether the row of an id meets a condition.
abbrev pub meets : Condition → Bytes → Bytes × ℕ → Bool
meets (has_id k) i x = k =? i
meets (has_version w) i (d, v) = v == w

abbrev pub meets_all : List Condition → Bytes → Bytes × ℕ → Bool
meets_all [] i x = true
meets_all (c ∷ cs) i x = meets c i x && meets_all cs i x

-- What an UPDATE makes of the row of an id.
abbrev pub after_set :
    List Setting → List Condition → Bytes → Option (Bytes × ℕ) → Option (Bytes × ℕ)
after_set ss cs i none = none
after_set ss cs i (some x) = if meets_all cs i x then some (set_all ss x) else some x

-- What an INSERT with ON CONFLICT makes of it.
abbrev pub after_insert : Bytes × ℕ → List Setting → Option (Bytes × ℕ) → Bytes × ℕ
after_insert x ss none = x
after_insert x ss (some y) = set_all ss y

-- What the documentation of PostgreSQL says of the two kinds of statement, whatever their settings
-- and conditions, where `row` reads a row by its table and id: each is atomic; an UPDATE sets
-- exactly the rows of its table that meet all its conditions, and returns the versions of such rows;
-- an INSERT with ON CONFLICT writes the row of its id and no other one, and returns its version;
-- and a statement that fails changes nothing.
pub record IsDocumented {Store : Type 0} (engine : Engine Store)
    (row : Store → Bytes → Bytes → Option (Bytes × ℕ)) : Type 0 where
  pub sets :
      (t : Bytes) (ss : List Setting) (cs : List Condition) (s : Store) (vs : List ℕ)
      → (engine.execute (set_where t ss cs) s).0 ≡ some vs
      → (u j : Bytes)
      → row (engine.execute (set_where t ss cs) s).1 u j
        ≡ (if t =? u then after_set ss cs j (row s u j) else row s u j)
  pub returns_set :
      (t : Bytes) (ss : List Setting) (cs : List Condition) (s : Store) (v : ℕ) (vs : List ℕ)
      → (engine.execute (set_where t ss cs) s).0 ≡ some (v ∷ vs)
      → (i : Bytes) × (x : Bytes × ℕ) × (row s t i ≡ some x)
        × (meets_all cs i x ≡ true)
        × (v ≡ (set_all ss x).1)
  pub inserts :
      (t i c : Bytes) (n : ℕ) (ss : List Setting) (s : Store) (vs : List ℕ)
      → (engine.execute (insert_or_set t i c n ss) s).0 ≡ some vs
      → (u j : Bytes)
      → row (engine.execute (insert_or_set t i c n ss) s).1 u j
        ≡ (if (t =? u) && (i =? j) then some (after_insert (c, n) ss (row s u j)) else row s u j)
  pub failures :
      (q : Statement) (s : Store)
      → (engine.execute q s).0 ≡ none
      → (u j : Bytes) → row (engine.execute q s).1 u j ≡ row s u j

-- A row that is there, with at least a version.
abbrev pub AtLeast : ℕ → Option (Bytes × ℕ) → Type 0
AtLeast n none = false ≡ true
AtLeast n (some (content, v)) = n ≤ v

-- The settings of both statements, and their effect.
AtLeast-set :
    (n : ℕ) (c i : Bytes) (cs : List Condition) (o : Option (Bytes × ℕ))
    → AtLeast n o
    → AtLeast n (after_set (set_content c ∷ increment_version ∷ set_time ∷ []) cs i o)
AtLeast-set n c i cs none a = a
AtLeast-set n c i cs (some x) a = elim (Bool-cases (meets_all cs i x)) [
  | inl e ↦ rw e (omega (arith, a))
  | inr e ↦ rw e a
]

AtLeast-insert :
    (n : ℕ) (c : Bytes) (o : Option (Bytes × ℕ))
    → AtLeast n o
    → AtLeast n (some (after_insert (c, 1) (set_content c ∷ increment_version ∷ set_time ∷ []) o))
AtLeast-insert n c none a = absurd (cc (a))
AtLeast-insert n c (some x) a = omega (arith, a)

meets-here :
    (i k : Bytes) (v : ℕ) (x : Bytes × ℕ)
    → meets_all (has_id i ∷ has_version v ∷ []) k x ≡ true
    → (i ≡ k) × (x.1 ≡ v)
meets-here i k v (d, x) h = (=?→≡ i k (ground (arith, h)), ground (arith, h))

module _ {Store : Type 0} (engine : Engine Store) (row : Store → Bytes → Bytes → Option (Bytes × ℕ))
    (laws : IsDocumented engine row) where
  -- A statement leaves the version of every row what it is, or makes it greater.
  upsert-AtLeast :
      (n : ℕ) (t i c : Bytes) (s : Store) (u j : Bytes)
      → AtLeast n (row s u j)
      → AtLeast n (row (engine.execute (upsert_statement t i c) s).1 u j)
  unfolding upsert_statement
  upsert-AtLeast n t i c s u j a =
      elim (Option-cases (engine.execute (upsert_statement t i c) s).0) [
        | inl e ↦ rw (laws.failures (upsert_statement t i c) s e u j) a
        | inr (vs, e) ↦ elim (Bool-cases ((t =? u) && (i =? j))) [
          | inl q ↦ rw (laws.inserts t i c 1 _ s vs e u j) (rw q (AtLeast-insert n c (row s u j) a))
          | inr q ↦ rw (laws.inserts t i c 1 _ s vs e u j) (rw q a)
        ]
      ]

  update-AtLeast :
      (n : ℕ) (t i c : Bytes) (v : ℕ) (s : Store) (u j : Bytes)
      → AtLeast n (row s u j)
      → AtLeast n (row (engine.execute (update_statement t i c v) s).1 u j)
  unfolding update_statement
  update-AtLeast n t i c v s u j a =
      elim (Option-cases (engine.execute (update_statement t i c v) s).0) [
        | inl e ↦ rw (laws.failures (update_statement t i c v) s e u j) a
        | inr (vs, e) ↦ elim (Bool-cases (t =? u)) [
          | inl q ↦
              rw (laws.sets t _ _ s vs e u j)
                (rw q (AtLeast-set n c j (has_id i ∷ has_version v ∷ []) (row s u j) a))
          | inr q ↦ rw (laws.sets t _ _ s vs e u j) (rw q a)
        ]
      ]

  put_in-AtLeast :
      (n : ℕ) (t i c : Bytes) (expected : ℕ) (s : Store) (u j : Bytes)
      → AtLeast n (row s u j)
      → AtLeast n (row (put_in engine t i c expected s).1 u j)
  unfolding put_in
  put_in-AtLeast n t i c expected s u j a = elim (Bool-cases (expected == 0)) [
    | inl e ↦ rw e (upsert-AtLeast n t i c s u j a)
    | inr e ↦ rw e (update-AtLeast n t i c expected s u j a)
  ]

  put_versioned-AtLeast :
      (n : ℕ) (k l i c : Bytes) (expected : ℕ) (s : Store) (u j : Bytes)
      → AtLeast n (row s u j)
      → AtLeast n (row (put_versioned engine k l i c expected s).1 u j)
  unfolding put_versioned
  put_versioned-AtLeast n k l i c expected s u j a = elim (Outcome-cases (table_name k l)) [
    | inl (e, h) ↦ rw (h, put_versioned) a
    | inr (t, h) ↦ rw (h, put_versioned) (put_in-AtLeast n t i c expected s u j a)
  ]

  -- Writes in a row, of any plugin to any document, with or without an expected version.
  abbrev pub puts : List (Bytes × Bytes × Bytes × Bytes × ℕ) → Store → Store
  puts [] s = s
  puts ((k, l, i, c, expected) ∷ ws) s = puts ws (put_versioned engine k l i c expected s).1

  puts-AtLeast :
      (n : ℕ) (ws : List (Bytes × Bytes × Bytes × Bytes × ℕ)) (s : Store) (u j : Bytes)
      → AtLeast n (row s u j)
      → AtLeast n (row (puts ws s) u j)
  puts-AtLeast n [] s u j a = a
  puts-AtLeast n ((k, l, i, c, expected) ∷ ws) s u j a =
      puts-AtLeast n ws (put_versioned engine k l i c expected s).1 u j
        (put_versioned-AtLeast n k l i c expected s u j a)

  -- The row that `UPDATE` returns is the one of the id, in the version that is asked for.
  update_returns :
      (t i c : Bytes) (v w : ℕ) (s : Store) (vs : List ℕ)
      → (engine.execute (update_statement t i c v) s).0 ≡ some (w ∷ vs)
      → ((d : Bytes) × (row s t i ≡ some (d, v)))
        × (w ≡ v + 1)
        × (row (engine.execute (update_statement t i c v) s).1 t i ≡ some (c, w))
  unfolding update_statement
  update_returns t i c v w s vs h =
      let (k, (d, x), found, met, new) = laws.returns_set t _ _ s w vs h in
      let (e, f) = meets-here i k v (d, x) met in
      let here : row s t i ≡ some (d, v) = ap (row s t) e ∙ found ∙ ap (λ z. some (d, z)) f in
      let next : w ≡ v + 1 = new ∙ ap (λ z. z + 1) f in
      let change = laws.sets t _ _ s (w ∷ vs) h t i in
      (
        (d, here),
        next,
        change
            ∙ rw (=?_refl t, here, =?_refl i, (==_iff v v).1 refl)
                (ap (λ z. some (c, z)) (sym next)),
      )

  -- A write that expects a version succeeds only on that version, and leaves the next one.
  put_versioned-returns :
      (k l t i c : Bytes) (v w : ℕ) (s : Store)
      → table_name k l ≡ returns t
      → 0 < v
      → (put_versioned engine k l i c v s).0 ≡ returns w
      → ((d : Bytes) × (row s t i ≡ some (d, v)))
        × (w ≡ v + 1)
        × (row (put_versioned engine k l i c v s).1 t i ≡ some (c, w))
  unfolding put_versioned put_in
  put_versioned-returns k l t i c v w s ht hv h =
      let e : (v == 0) ≡ false = ground (arith, hv) in
      elim (Option-cases (engine.execute (update_statement t i c v) s).0) [
        | inl q ↦ absurd (cc (rw q at (rw e at (rw (ht, put_versioned) at h))))
        | inr ([], q) ↦ absurd (cc (rw q at (rw e at (rw (ht, put_versioned) at h))))
        | inr (x ∷ vs, q) ↦
            let (a, d, r) = update_returns t i c v x s vs q in
            let g : x ≡ w = cc (rw q at (rw e at (rw (ht, put_versioned) at h))) in
            (a, sym g ∙ d, rw (ht, put_versioned) (rw e (rw (sym g) r)))
      ]

  -- Of all the writers that read one version of a document, at most one succeeds: once a write
  -- that expects it has succeeded, another one that expects it fails, whatever other writes of
  -- versioned documents come between. Documents that are deleted are not concerned.
  pub first_writer_wins :
      (k l t i c d : Bytes) (v w x : ℕ) (ws : List (Bytes × Bytes × Bytes × Bytes × ℕ)) (s : Store)
      → table_name k l ≡ returns t
      → 0 < v
      → (put_versioned engine k l i c v s).0 ≡ returns w
      → (put_versioned engine k l i d v (puts ws (put_versioned engine k l i c v s).1)).0
        ≢ returns x
  first_writer_wins k l t i c d v w x ws s ht hv h =
      let after = (put_versioned engine k l i c v s).1 in
      let (_, e, r) = put_versioned-returns k l t i c v w s ht hv h in
      let b : AtLeast (v + 1) (row after t i) = rw r (omega (arith, e)) in
      let m = puts-AtLeast (v + 1) ws after t i b in
      λ again.
        let ((_, q), _, _) = put_versioned-returns k l t i d v x (puts ws after) ht hv again in
        let n : v + 1 ≤ v = rw q at m in omega (arith, n)
