-- ===== src/Db/Query/Tests.antt =====
-- Queries that differ in a value.
use moduless.Base.{Bytes, bytes, [], ◌∷◌, ◌≡◌, refl, true, none, pos, ◌++◌, Option, ◌⊎◌}
use moduless.Db.Sql.{returns, text, number}
use moduless.Db.Query.{QueryOptions, Cursor, query_statement, json_path}
use moduless.Db.Query.Clauses.{SameText}
use moduless.Db.Query.Binding.{query_statement-SameText}
use moduless.Db.Query.Paths.{IsPlain, json_path-IsPlain}

abbrev below_price : Bytes → QueryOptions
below_price price = record {
  predicates = record { field = bytes "item.price"; op = bytes "<"; values = price ∷ [] } ∷ [];
  sort = record { field = bytes "name"; descending = true } ∷ [];
  limit = pos 10;
  cursor = [];
}

abbrev no_cursors : Bytes → Option Cursor
no_cursors s = none

below_text :
    query_statement no_cursors (bytes "shop") (bytes "orders") (below_price (bytes "5"))
    ≡ returns (
      bytes "SELECT id, data FROM ext_shop_orders WHERE (data#>>'{item,price}') < $1 "
          ++ bytes "ORDER BY (data->>'name') DESC, id DESC LIMIT $2",
      text (bytes "5") ∷ number 11 ∷ [],
    )
unfolding query_statement
below_text = refl

query_statement-SameText_example :
    SameText
      (query_statement no_cursors (bytes "shop") (bytes "orders") (below_price (bytes "5")))
      (query_statement no_cursors
        (bytes "shop")
        (bytes "orders")
        (below_price (bytes "1; DROP TABLE x")))
query_statement-SameText_example =
    query_statement-SameText no_cursors (bytes "shop") (bytes "orders") (below_price (bytes "5"))
      (below_price (bytes "1; DROP TABLE x"))
      (record { same_shapes = (refl, refl, refl, refl); same_sort = refl; same_cursors = refl })

json_path-IsPlain_example :
    (body : Bytes) × IsPlain body
    × ((bytes "(data#>>'{item,price}')" ≡ bytes "(data->>'" ++ (body ++ bytes "')"))
        ⊎ (bytes "(data#>>'{item,price}')" ≡ bytes "(data#>>'{" ++ (body ++ bytes "}')")))
json_path-IsPlain_example =
    json_path-IsPlain (bytes "item.price") (bytes "(data#>>'{item,price}')")
      (unfold json_path in refl)
