-- ===== src/Db/Sql/Tests.antt =====
-- Table names of two plugins.
use moduless.Base.{
  Bytes, bytes, ◌≡◌, refl, arith, ℕ, zero, suc, ◌+◌, ◌≤◌, ap, [], ◌∷◌, All, length, take, map, leb,
  ◌&&◌, false, if◌then◌else◌,
}
use moduless.Db.Sql.{returns, table_name, decimal, is_identifier}
use moduless.Db.Sql.Tables.{IsKept, table_name-injective, table_name-shared}

shop_table : table_name (bytes "shop") (bytes "orders") ≡ returns (bytes "ext_shop_orders")
unfolding table_name
shop_table = refl

limit_text : decimal 1001 ≡ bytes "1001"
unfolding decimal
limit_text = refl

-- What PostgreSQL makes of a name without quotes.
abbrev lower : ℕ → ℕ
lower c = if leb b'A' c && leb c b'Z' then c + 32 else c

unfoldable fold_name : Bytes → Bytes
fold_name name = take 63 (map lower name)

lower_kept :
    (name : Bytes) → All (λ c. (leb b'A' c && leb c b'Z') ≡ false) name → map lower name ≡ name
lower_kept [] h = refl
lower_kept (c ∷ name) h = rw (h.0, lower_kept name h.1) refl

take-all : (n : ℕ) (name : Bytes) → length name ≤ n → take n name ≡ name
take-all zero [] h = refl
take-all zero (c ∷ name) h = absurd (omega (arith, h))
take-all (suc n) [] h = refl
take-all (suc n) (c ∷ name) h = ap (λ s. c ∷ s) (take-all n name (omega (arith, h)))

fold_name-keeps : (name : Bytes) → IsKept name → fold_name name ≡ name
unfolding fold_name
fold_name-keeps name h = rw (lower_kept name h.0) (take-all 63 name h.1)

shop_table-IsKept : IsKept (bytes "ext_shop_orders")
shop_table-IsKept = (ground arith, omega arith)

table_name-injective_example : (bytes "shop" ≡ bytes "shop") × (bytes "orders" ≡ bytes "orders")
table_name-injective_example =
    table_name-injective fold_name fold_name-keeps (bytes "shop") (bytes "shop") (bytes "orders")
      (bytes "orders") (bytes "ext_shop_orders") (bytes "ext_shop_orders") (ground arith)
      (ground arith) shop_table shop_table shop_table-IsKept shop_table-IsKept refl

-- With an upper-case letter another collection has the same table.
other_case :
    (table_name (bytes "shop") (bytes "Orders") ≡ returns (bytes "ext_shop_Orders"))
    × (fold_name (bytes "ext_shop_Orders") ≡ bytes "ext_shop_orders")
unfolding table_name fold_name
other_case = (refl, refl)

table_name-shared_example :
    (t : Bytes) × (table_name (bytes "shop") (bytes "old_orders") ≡ returns t)
    × (table_name (bytes "shop_old") (bytes "orders") ≡ returns t)
table_name-shared_example =
    table_name-shared (bytes "shop") (bytes "old") (bytes "orders") (unfold is_identifier in refl)
      (unfold is_identifier in refl) (unfold is_identifier in refl)
