-- ===== src/Db/Pages/Tests.antt =====
-- A page of two rows out of three.
use moduless.Base.{bytes, [], ◌∷◌, ◌≡◌, refl, true, false, none, pos}
use moduless.Db.Sql.{returns, Outcome}
use moduless.Db.Query.{QueryOptions, Cursor}
use moduless.Db.Pages.{scanned, Rows, QueryResult, query}
use moduless.Db.Pages.Bounds.{IsResult, query-IsResult}

abbrev three_rows : Rows
three_rows = record {
  items =
      scanned (bytes "a") (bytes "{}")
      ∷ scanned (bytes "b") (bytes "[]")
      ∷ scanned (bytes "c") (bytes "1")
      ∷ [];
  broken = false;
}

abbrev two_of_them : QueryOptions
two_of_them = record { predicates = []; sort = []; limit = pos 2; cursor = [] }

abbrev first_page : QueryResult
first_page = record {
  documents = bytes "{}" ∷ bytes "[]" ∷ [];
  ids = bytes "a" ∷ bytes "b" ∷ [];
  next_cursor = bytes "b";
  has_more = true;
}

abbrev asked : Outcome QueryResult
asked =
    query (λ f. []) (λ j. []) (λ raw. none) (λ (c : Cursor). c.ident) (λ s. none)
      (λ sql args. returns three_rows) (bytes "shop") (bytes "orders") two_of_them

asked_first : asked ≡ returns first_page
unfolding query
asked_first = refl

query-IsResult_example : IsResult 2 first_page
query-IsResult_example =
    query-IsResult (λ f. []) (λ j. []) (λ raw. none) (λ (c : Cursor). c.ident) (λ s. none)
      (λ sql args. returns three_rows) (bytes "shop") (bytes "orders") two_of_them first_page
      asked_first
