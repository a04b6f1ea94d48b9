-- ===== src/Db/Query/Binding.antt =====
-- What the values of a query decide: the bound arguments, and never the text of the statement
-- (core/db/query.go).
use moduless.Base.{
  ℕ, ◌+◌, Bool, true, false, List, [], ◌∷◌, ◌++◌, map, Bytes, length, length-append, Option, some,
  inl, inr, ◌≡◌, refl, sym, ap, ◌∙◌, Bool-cases, arith, ◌==◌,
}
use moduless.Db.Sql.{Outcome, returns, ◌>>=◌, table_name, text, number}
use moduless.Db.Query.Clauses.{SameText, clause_of-SameText, bind-SameText, shared-SameText}
use moduless.Db.Query.{
  Predicate, QueryOptions, Cursor, clause_of, clauses_from, build_where, json_path, kind_of,
  operator_of, sort_exprs_from, is_descending, at_cursor, with_cursor, query_statement,
}

-- Predicates that differ in their values only, with as many of them.
abbrev pub SameShapes : List Predicate → List Predicate → Type 0
SameShapes [] [] = true ≡ true
SameShapes (p ∷ ps) (q ∷ qs) =
    (p.field ≡ q.field) × (p.op ≡ q.op) × (length p.values ≡ length q.values) × SameShapes ps qs
SameShapes [] (q ∷ qs) = false ≡ true
SameShapes (p ∷ ps) [] = false ≡ true

-- One round of the loop, whatever the rest of it is.
round-SameText :
    (n : ℕ) (f g o q : Bytes) (vs ws : List Bytes)
    (more others : ℕ → Outcome (List Bytes × List Bytes))
    → f ≡ g
    → o ≡ q
    → length vs ≡ length ws
    → ((k : ℕ) → SameText (more k) (others k))
    → SameText
        (json_path f >>= (λ e.
          clause_of (kind_of (operator_of o)) o e n vs
          >>= (λ c. more (n + length c.1) >>= (λ r. returns (c.0 ∷ r.0, c.1 ++ r.1)))))
        (json_path g >>= (λ e.
          clause_of (kind_of (operator_of q)) q e n ws
          >>= (λ c. others (n + length c.1) >>= (λ r. returns (c.0 ∷ r.0, c.1 ++ r.1)))))
round-SameText n f g o q vs ws more others hf ho hv rest =
    rw (hf, ho)
      (shared-SameText (json_path g) _ _ λ e.
        bind-SameText _ _ _ _ (clause_of-SameText (kind_of (operator_of q)) q e n vs ws hv)
          λ t a b h. rw h (
            bind-SameText _ _ _ _ (rest (n + length b))
              λ u c d j. (refl, omega (arith, length-append a c, length-append b d, h, j))))

clauses_from-SameText :
    (n : ℕ) (ps qs : List Predicate)
    → SameShapes ps qs
    → SameText (clauses_from n ps) (clauses_from n qs)
unfolding clauses_from
clauses_from-SameText n [] [] s = (refl, refl)
clauses_from-SameText n [] (q ∷ qs) s = absurd (cc)
clauses_from-SameText n (p ∷ ps) [] s = absurd (cc)
clauses_from-SameText n (p ∷ ps) (q ∷ qs) s =
    round-SameText n p.field q.field p.op q.op p.values q.values _ _ s.0 s.1 s.2
      λ k. clauses_from-SameText k ps qs s.3

build_where-SameText :
    (ps qs : List Predicate) (n : ℕ)
    → SameShapes ps qs
    → SameText (build_where ps n) (build_where qs n)
unfolding build_where
build_where-SameText [] [] n s = (refl, refl)
build_where-SameText [] (q ∷ qs) n s = absurd (cc)
build_where-SameText (p ∷ ps) [] n s = absurd (cc)
build_where-SameText (p ∷ ps) (q ∷ qs) n s =
    bind-SameText _ _ _ _ (clauses_from-SameText n (p ∷ ps) (q ∷ qs) s) λ t a b h. (refl, h)

-- Cursors that decode alike: no cursor in both, or one in both.
abbrev pub SameCursors : (Bytes → Option Cursor) → Bytes → Bytes → Type 0
SameCursors decode [] [] = true ≡ true
SameCursors decode [] (d ∷ t) = false ≡ true
SameCursors decode (c ∷ s) [] = false ≡ true
SameCursors decode (c ∷ s) (d ∷ t) =
    (a : Cursor) × (b : Cursor) × (decode (c ∷ s) ≡ some a)
    × (decode (d ∷ t) ≡ some b)
    × (length a.keys ≡ length b.keys)

at_cursor-SameText :
    (exprs : List Bytes) (descending : Bool) (a b : Cursor) (t : Bytes) (vs ws : List Bytes)
    → length a.keys ≡ length b.keys
    → length vs ≡ length ws
    → SameText
        (at_cursor exprs descending (some a) (t, vs))
        (at_cursor exprs descending (some b) (t, ws))
unfolding at_cursor
at_cursor-SameText exprs descending a b t vs ws hk hv =
    rw (hk, hv)
      (elim (Bool-cases (length b.keys == length exprs)) [
        | inl e ↦ rw e (
          refl,
          omega (
            arith,
            length-append vs (a.keys ++ (a.ident ∷ [])),
            length-append ws (b.keys ++ (b.ident ∷ [])),
            length-append a.keys (a.ident ∷ []),
            length-append b.keys (b.ident ∷ []),
            hk,
            hv,
          ),
        )
        | inr e ↦ rw e refl
      ])

with_cursor-SameText :
    (decode : Bytes → Option Cursor) (exprs : List Bytes) (descending : Bool) (c d t : Bytes)
    (vs ws : List Bytes)
    → SameCursors decode c d
    → length vs ≡ length ws
    → SameText
        (with_cursor decode exprs descending c (t, vs))
        (with_cursor decode exprs descending d (t, ws))
unfolding with_cursor
with_cursor-SameText decode exprs descending [] [] t vs ws h hv = (refl, hv)
with_cursor-SameText decode exprs descending [] (y ∷ ys) t vs ws h hv = absurd (cc)
with_cursor-SameText decode exprs descending (x ∷ xs) [] t vs ws h hv = absurd (cc)
with_cursor-SameText decode exprs descending (x ∷ xs) (y ∷ ys) t vs ws (a, b, ha, hb, hk) hv =
    rw (ha, hb) (at_cursor-SameText exprs descending a b t vs ws hk hv)

length-args : (vs : List Bytes) (n : ℕ) → length (map text vs ++ (number n ∷ [])) ≡ length vs + 1
length-args [] n = refl
length-args (v ∷ vs) n = omega (arith, length-args vs n)

-- Queries that sort alike, and differ otherwise only in the values that they compare with, in
-- their page size, and in the keys of their cursors.
pub record SameQuery (decode : Bytes → Option Cursor) (o q : QueryOptions) : Type 0 where
  pub same_shapes : SameShapes o.predicates q.predicates
  pub same_sort : o.sort ≡ q.sort
  pub same_cursors : SameCursors decode o.cursor q.cursor

-- The text of a query's statement does not depend on the values that the predicates compare
-- with, on the size of the page or on the keys that a cursor carries: queries that differ only
-- in those, with as many values, fail alike, or send the same text and bind as many arguments.
pub query_statement-SameText :
    (decode : Bytes → Option Cursor) (ext_key collection : Bytes) (o q : QueryOptions)
    → SameQuery decode o q
    → SameText
        (query_statement decode ext_key collection o)
        (query_statement decode ext_key collection q)
unfolding query_statement
query_statement-SameText decode ext_key collection o q s = rw s.same_sort (
    shared-SameText (table_name ext_key collection) _ _ λ table.
      bind-SameText _ _ _ _ (build_where-SameText o.predicates q.predicates 0 s.same_shapes)
        λ t a b h. shared-SameText (sort_exprs_from (is_descending q.sort) q.sort) _ _ λ exprs.
          bind-SameText _ _ _ _
            (with_cursor-SameText decode exprs (is_descending q.sort) o.cursor q.cursor t a b
              s.same_cursors h)
            λ u c d j. rw j (refl, length-args c _ ∙ ap (λ n. n + 1) j ∙ sym (length-args d _)))
