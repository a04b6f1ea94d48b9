-- ===== src/Db/Pages.antt =====
-- Reading a page: the second half of `Query` (core/db/query.go), with the cursor for the next
-- page. `select` is `QueryContext` of the database, `encode` is `encodeCursor`, and `parse` is
-- `json.Unmarshal` into a map; `format_float` and `marshal` are the texts that the library gives to
-- a float, by `%v`, and to a JSON value.
pub mod Bounds
pub mod Taken
mod Tests
use moduless.Base.{
  ℕ, suc, ◌+◌, Bool, true, false, ◌&&◌, List, [], ◌∷◌, ◌++◌, if◌then◌else◌, ◌==◌, Bytes, bytes,
  is_empty, ◌=?◌, split, length, Option, none, some, ℤ, pos, negsuc, negate,
}
use moduless.Db.Sql.{DbError, failed_statement, Outcome, fails, returns, ◌>>=◌, Arg, decimal}
use moduless.Db.Query.{SortField, QueryOptions, Cursor, query_statement, page_limit}

-- A decoded JSON value. A number is a float64, `whole` where it equals its int64.
mutual
  pub data Json : Type 0 where
    null : Json
    string : Bytes → Json
    whole : ℤ → Json
    float : ℕ → Json
    boolean : Bool → Json
    array : Items → Json
    object : Members → Json

  pub data Items : Type 0 where
    none_left : Items
    item : Json → Items → Items

  pub data Members : Type 0 where
    no_member : Members
    member : Bytes → Json → Members → Members

-- `obj[seg]`: `nil` where the member is missing, and the last of members with one name.
unfoldable pub get_member : Bytes → Members → Json → Json
unfolding ◌=?◌
get_member key no_member found = found
get_member key (member k v rest) found = get_member key rest (if k =? key then v else found)

abbrev pub sign_text : ℤ → Bytes
sign_text (pos n) = []
sign_text (negsuc n) = b'-' ∷ []

abbrev pub magnitude : ℤ → ℕ
magnitude (pos n) = n
magnitude (negsuc n) = suc n

-- A row: its two columns, or an error of `Scan`.
pub data Row : Type 0 where
  scanned : Bytes → Bytes → Row
  unreadable : Row

-- What `QueryContext` returns; `broken` tells that `rows.Err` is an error.
pub record Rows : Type 0 where
  pub items : List Row
  pub broken : Bool

pub record QueryResult : Type 0 where
  pub documents : List Bytes
  pub ids : List Bytes
  pub next_cursor : Bytes
  pub has_more : Bool

-- The variables of the loop on the rows. `docs` holds what `documents` does.
pub record Reading : Type 0 where
  pub result : QueryResult
  pub last_id : Bytes
  pub last_doc : Bytes

abbrev pub nothing_read : Reading
nothing_read = record {
  result = record { documents = []; ids = []; next_cursor = []; has_more = false };
  last_id = [];
  last_doc = [];
}

abbrev pub push : Bytes → Bytes → Reading → Reading
push ident raw s = record {
  result = record s.result {
    documents = s.result.documents ++ (raw ∷ []);
    ids = s.result.ids ++ (ident ∷ []);
  };
  last_id = ident;
  last_doc = raw;
}

abbrev pub stop : Reading → Reading
stop s = record s { result = record s.result { has_more = true } }

-- The loop on the rows.
unfoldable pub read_rows : Bytes → ℕ → List Row → Reading → Outcome Reading
read_rows collection limit [] s = returns s
read_rows collection limit (unreadable ∷ rows) s = fails (failed_statement collection)
read_rows collection limit (scanned ident raw ∷ rows) s =
    let rest = read_rows collection limit rows (push ident raw s) in
    if length s.result.documents == limit then returns (stop s) else rest

module _ (format_float : ℕ → Bytes) (marshal : Json → Bytes) (parse : Bytes → Option Members)
    (encode : Cursor → Bytes) where
  -- The `switch` of `lookupPath`.
  unfoldable pub render : Json → Bytes
  unfolding decimal
  render null = []
  render (string s) = s
  render (whole n) = sign_text n ++ decimal (magnitude n)
  render (float f) = format_float f
  render (boolean b) = if b then bytes "true" else bytes "false"
  render (array xs) = marshal (array xs)
  render (object m) = marshal (object m)

  unfoldable pub lookup_path : Json → List Bytes → Bytes
  unfolding get_member render
  lookup_path node [] = render node
  lookup_path (object m) (seg ∷ path) = lookup_path (get_member seg m null) path
  lookup_path null (seg ∷ path) = []
  lookup_path (string s) (seg ∷ path) = []
  lookup_path (whole n) (seg ∷ path) = []
  lookup_path (float f) (seg ∷ path) = []
  lookup_path (boolean b) (seg ∷ path) = []
  lookup_path (array xs) (seg ∷ path) = []

  unfoldable pub keys_from : Members → List SortField → List Bytes
  unfolding lookup_path split
  keys_from m [] = []
  keys_from m (s ∷ ss) = lookup_path (object m) (split s.field b'.') ∷ keys_from m ss

  unfoldable pub sort_keys_of : Bytes → Bytes → List SortField → Outcome (List Bytes)
  unfolding keys_from
  sort_keys_of collection doc [] = returns []
  sort_keys_of collection doc (s ∷ ss) = elim (parse doc) [
    | none ↦ fails (failed_statement collection)
    | some m ↦ returns (keys_from m (s ∷ ss))
  ]

  -- What follows the loop: the cursor for the next page.
  unfoldable pub with_next_cursor : Bytes → List SortField → Reading → Outcome QueryResult
  unfolding sort_keys_of
  with_next_cursor collection sort s =
      if s.result.has_more && negate (is_empty s.last_id)
      then (do
        keys ← sort_keys_of collection s.last_doc sort
        returns
            (record s.result { next_cursor = encode (record { keys = keys; ident = s.last_id }) }))
      else returns s.result

  -- `Query`.
  unfoldable pub query :
      (Bytes → Option Cursor)
      → (Bytes → List Arg → Outcome Rows)
      → Bytes
      → Bytes
      → QueryOptions
      → Outcome QueryResult
  unfolding query_statement page_limit read_rows with_next_cursor
  query decode select ext_key collection opts = do
    (sql, args) ← query_statement decode ext_key collection opts
    rows ← select sql args
    s ← read_rows collection (page_limit opts.limit) rows.items nothing_read
    (if rows.broken
        then fails (failed_statement collection)
        else with_next_cursor collection opts.sort s)
