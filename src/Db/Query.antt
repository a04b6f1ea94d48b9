-- ===== src/Db/Query.antt =====
-- Queries of core/db/query.go: predicates, sort fields and cursors as the text of one statement
-- and the values that it binds. Operators are ASCII text. `decode` is `decodeCursor` (base64 and
-- JSON), with `none` for its error.
pub mod Clauses
pub mod Binding
pub mod Paths
mod Tests
use moduless.Base.{
  ℕ, suc, ◌+◌, Bool, true, false, ◌&&◌, ◌||◌, List, [], ◌∷◌, ◌++◌, map, if◌then◌else◌, ◌==◌, Bytes,
  bytes, is_empty, ◌=?◌, split, length, Option, none, some, ℤ, default_unless_pos, ltb, negate,
  mem_bytes,
}
use moduless.Manifest.Filters.{to_upper, trim_space}
use moduless.Db.Sql.{
  DbError, field_required, wrong_value_count, unsupported_operator, mixed_directions,
  malformed_cursor, cursor_mismatch, Outcome, fails, returns, ◌>>=◌, Arg, text, number, join,
  placeholder, validate_identifier, table_name, plain_path,
}

pub record Predicate : Type 0 where
  pub field : Bytes
  pub op : Bytes
  pub values : List Bytes

pub record SortField : Type 0 where
  pub field : Bytes
  pub descending : Bool

pub record QueryOptions : Type 0 where
  pub predicates : List Predicate
  pub sort : List SortField
  pub limit : ℤ
  pub cursor : Bytes

-- `cursorPayload`.
pub record Cursor : Type 0 where
  pub keys : List Bytes
  pub ident : Bytes

-- The loop of `jsonPath` on the segments: the first one that is no identifier is refused.
unfoldable pub validate_all : List Bytes → Outcome (List Bytes)
unfolding validate_identifier
validate_all [] = returns []
validate_all (p ∷ ps) = do q ← validate_identifier p; qs ← validate_all ps; returns (q ∷ qs)

-- The text for validated segments.
unfoldable pub path_text : List Bytes → Bytes
unfolding join
path_text [] = []
path_text (p ∷ []) = plain_path p
path_text (p ∷ q ∷ ps) = bytes "(data#>>'{" ++ (join (bytes ",") (p ∷ q ∷ ps) ++ bytes "}')")

unfoldable pub json_path : Bytes → Outcome Bytes
unfolding validate_all path_text split
json_path [] = fails field_required
json_path (c ∷ s) = do parts ← validate_all (split (c ∷ s) b'.'); returns (path_text parts)

-- What the `switch` of `buildWhere` does with an operator. The texts are `OpEq` to `OpIsNotNull`.
pub data OpKind : Type 0 where
  one_value : OpKind
  in_list : OpKind
  between : OpKind
  is_null : OpKind
  is_not_null : OpKind
  no_operator : OpKind

abbrev one_value_operators : List Bytes
one_value_operators =
    bytes "=" ∷ bytes "!=" ∷ bytes ">" ∷ bytes ">=" ∷ bytes "<" ∷ bytes "<=" ∷ bytes "LIKE" ∷ []

-- `op` of a predicate, in its normal form.
unfoldable pub operator_of : Bytes → Bytes
unfolding to_upper trim_space
operator_of raw = let op = to_upper (trim_space raw) in if is_empty op then bytes "=" else op

unfoldable pub kind_of : Bytes → OpKind
unfolding mem_bytes ◌=?◌
kind_of op =
    if mem_bytes one_value_operators op
    then one_value
    else if op =? bytes "IN"
    then in_list
    else if op =? bytes "BETWEEN"
    then between
    else if op =? bytes "IS NULL"
    then is_null
    else if op =? bytes "IS NOT NULL"
    then is_not_null
    else no_operator

-- `$n+1, ..., $n+count`, joined later.
unfoldable pub placeholders : ℕ → ℕ → List Bytes
unfolding placeholder
placeholders n ℕ.zero = []
placeholders n (suc count) = placeholder (n + 1) ∷ placeholders (n + 1) count

-- A clause and the values that it binds, for the kind of the operator `raw`, an expression and
-- the number `n` of values bound before it.
unfoldable pub clause_of : OpKind → Bytes → Bytes → ℕ → List Bytes → Outcome (Bytes × List Bytes)
unfolding operator_of placeholder placeholders join
clause_of one_value raw expr n (v ∷ []) =
    returns (expr ++ (b' ' ∷ (operator_of raw ++ (b' ' ∷ placeholder (n + 1)))), v ∷ [])
clause_of one_value raw expr n values = fails (wrong_value_count (operator_of raw))
clause_of in_list raw expr n [] = returns (bytes "FALSE", [])
clause_of in_list raw expr n (v ∷ vs) =
    let marks = placeholders n (suc (length vs)) in
    returns (expr ++ (bytes " IN (" ++ (join (bytes ", ") marks ++ bytes ")")), v ∷ vs)
clause_of between raw expr n (v ∷ w ∷ []) =
    let marks = placeholder (n + 1) ++ (bytes " AND " ++ placeholder (n + 2)) in
    returns (expr ++ (bytes " BETWEEN " ++ marks), v ∷ w ∷ [])
clause_of between raw expr n values = fails (wrong_value_count (operator_of raw))
clause_of is_null raw expr n values = returns (expr ++ bytes " IS NULL", [])
clause_of is_not_null raw expr n values = returns (expr ++ bytes " IS NOT NULL", [])
clause_of no_operator raw expr n values = fails (unsupported_operator raw)

-- The loop of `buildWhere`: the clauses of the predicates and the values that they bind.
unfoldable pub clauses_from : ℕ → List Predicate → Outcome (List Bytes × List Bytes)
unfolding json_path operator_of kind_of clause_of
clauses_from n [] = returns ([], [])
clauses_from n (p ∷ ps) = do
  expr ← json_path p.field
  (clause, args) ← clause_of (kind_of (operator_of p.op)) p.op expr n p.values
  (clauses, rest) ← clauses_from (n + length args) ps
  returns (clause ∷ clauses, args ++ rest)

-- `buildWhere`: the fragment and the values.
unfoldable pub build_where : List Predicate → ℕ → Outcome (Bytes × List Bytes)
unfolding clauses_from join
build_where [] offset = returns ([], [])
build_where (p ∷ ps) offset = do
  (clauses, args) ← clauses_from offset (p ∷ ps)
  returns (bytes " WHERE " ++ join (bytes " AND ") clauses, args)

abbrev same_direction : Bool → Bool → Bool
same_direction true d = d
same_direction false d = negate d

-- The loop on the sort fields, where `descending` is the direction of the first one.
unfoldable pub sort_exprs_from : Bool → List SortField → Outcome (List Bytes)
unfolding json_path
sort_exprs_from descending [] = returns []
sort_exprs_from descending (s ∷ ss) = do
  expr ← json_path s.field
  exprs ←
      (let rest = sort_exprs_from descending ss in
        if same_direction descending s.descending then rest else fails mixed_directions)
  returns (expr ∷ exprs)

abbrev pub is_descending : List SortField → Bool
is_descending [] = false
is_descending (s ∷ ss) = s.descending

unfoldable pub cursor_clause : List Bytes → Bool → ℕ → Bytes
unfolding join placeholders
cursor_clause exprs descending n =
    let lhs = join (bytes ", ") (exprs ++ (bytes "id" ∷ [])) in
    let rhs = join (bytes ", ") (placeholders n (length exprs + 1)) in
    let comparison = if descending then bytes "<" else bytes ">" in
    b'(' ∷ (lhs ++ (bytes ") " ++ (comparison ++ (bytes " (" ++ (rhs ++ bytes ")")))))

-- `where`, with one more clause.
abbrev pub and_where : Bytes → Bytes → Bytes
and_where [] clause = bytes " WHERE " ++ clause
and_where (c ∷ s) clause = (c ∷ s) ++ (bytes " AND " ++ clause)

-- The clause of a decoded cursor, on a fragment and the values that it binds.
unfoldable pub at_cursor :
    List Bytes → Bool → Option Cursor → Bytes × List Bytes → Outcome (Bytes × List Bytes)
unfolding cursor_clause
at_cursor exprs descending none r = fails malformed_cursor
at_cursor exprs descending (some cur) (fragment, args) =
    if length cur.keys == length exprs
    then returns (
      and_where fragment (cursor_clause exprs descending (length args)),
      args ++ (cur.keys ++ (cur.ident ∷ [])),
    )
    else fails cursor_mismatch

unfoldable pub with_cursor :
    (Bytes → Option Cursor)
    → List Bytes
    → Bool
    → Bytes
    → Bytes × List Bytes
    → Outcome (Bytes × List Bytes)
unfolding at_cursor
with_cursor decode exprs descending [] r = returns r
with_cursor decode exprs descending (c ∷ s) r = at_cursor exprs descending (decode (c ∷ s)) r

abbrev pub default_query_limit : ℕ
default_query_limit = 100

abbrev pub max_query_limit : ℕ
max_query_limit = 1000

unfoldable pub page_limit : ℤ → ℕ
page_limit limit =
    let n = default_unless_pos default_query_limit limit in
    if ltb max_query_limit n then max_query_limit else n

unfoldable pub order_by : List Bytes → Bool → Bytes
unfolding join
order_by exprs descending =
    let direction = if descending then bytes " DESC" else bytes " ASC" in
    join (bytes ", ") (map (λ e. e ++ direction) (exprs ++ (bytes "id" ∷ [])))

-- The text of a page's statement, which binds `n` values.
unfoldable pub select_text : Bytes → Bytes → Bytes → ℕ → Bytes
unfolding placeholder
select_text table fragment order n =
    bytes "SELECT id, data FROM "
    ++ (table
        ++ (fragment ++ (bytes " ORDER BY " ++ (order ++ (bytes " LIMIT " ++ placeholder n)))))

-- The statement of `Query`, up to `QueryContext`.
unfoldable pub query_statement :
    (Bytes → Option Cursor) → Bytes → Bytes → QueryOptions → Outcome (Bytes × List Arg)
unfolding table_name build_where sort_exprs_from with_cursor order_by select_text page_limit
query_statement decode ext_key collection opts = do
  table ← table_name ext_key collection
  r ← build_where opts.predicates 0
  exprs ← sort_exprs_from (is_descending opts.sort) opts.sort
  (fragment, args) ← with_cursor decode exprs (is_descending opts.sort) opts.cursor r
  returns (
    select_text table fragment (order_by exprs (is_descending opts.sort)) (length args + 1),
    map text args ++ (number (page_limit opts.limit + 1) ∷ []),
  )
