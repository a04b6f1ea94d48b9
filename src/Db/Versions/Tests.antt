-- ===== src/Db/Versions/Tests.antt =====
-- A store whose statements never fail, and batches on it.
use moduless.Base.{
  sym, Bytes, bytes, [], ◌∷◌, ◌≡◌, ◌≢◌, refl, true, false, none, some, ℕ, Option, arith, inl, inr,
  Bool-cases, if◌then◌else◌, ◌=?◌, ◌&&◌, List,
}
use moduless.Db.Sql.{bad_identifier, returns, table_name}
use moduless.Db.Versions.{
  Engine, Statement, Setting, Condition, has_id, has_version, set_where, insert_or_set, committed,
  BatchOp, put_versioned, batch_write,
}
use moduless.Db.Versions.Locking.{
  IsDocumented, after_set, after_insert, set_all, meets_all, puts, first_writer_wins,
}
use moduless.Db.Versions.Batches.{Ended, apply_all, batch_write-atomic}

-- The rows by their table and id.
abbrev Rows : Type 0
Rows = Bytes → Bytes → Option (Bytes × ℕ)

abbrev set_row : Bytes → Bytes → Option (Bytes × ℕ) → Rows → Rows
set_row t i x s = λ u j. if (t =? u) && (i =? j) then x else s u j

-- The id that the conditions name; a statement without one fails here.
abbrev id_in : List Condition → Option Bytes
id_in [] = none
id_in (has_id i ∷ cs) = some i
id_in (has_version v ∷ cs) = id_in cs

abbrev set_rows : Bytes → List Setting → List Condition → Rows → Rows
set_rows t ss cs s = λ u j. if t =? u then after_set ss cs j (s u j) else s u j

abbrev version_set : List Setting → List Condition → Bytes → Option (Bytes × ℕ) → List ℕ
version_set ss cs i none = []
version_set ss cs i (some x) = if meets_all cs i x then (set_all ss x).1 ∷ [] else []

abbrev set_at : Bytes → List Setting → List Condition → Rows → Option Bytes → Option (List ℕ) × Rows
set_at t ss cs s none = (none, s)
set_at t ss cs s (some i) = (some (version_set ss cs i (s t i)), set_rows t ss cs s)

abbrev execute_rows : Statement → Rows → Option (List ℕ) × Rows
execute_rows (insert_or_set t i c n ss) s = (
  some ((after_insert (c, n) ss (s t i)).1 ∷ []),
  λ u j. if (t =? u) && (i =? j) then some (after_insert (c, n) ss (s u j)) else s u j,
)
execute_rows (set_where t ss cs) s = set_at t ss cs s (id_in cs)

abbrev rows_engine : Engine Rows
rows_engine = record {
  execute = execute_rows;
  fetch = λ t i s. some (s t i);
  remove = λ t i s. (some (some 1), set_row t i none s);
}

set_at-sets :
    (t : Bytes) (ss : List Setting) (cs : List Condition) (s : Rows) (o : Option Bytes)
    (vs : List ℕ)
    → (set_at t ss cs s o).0 ≡ some vs
    → (u j : Bytes)
    → (set_at t ss cs s o).1 u j ≡ (if t =? u then after_set ss cs j (s u j) else s u j)
set_at-sets t ss cs s none vs h u j = absurd (cc (h))
set_at-sets t ss cs s (some i) vs h u j = refl

version_set-some :
    (ss : List Setting) (cs : List Condition) (i : Bytes) (o : Option (Bytes × ℕ)) (v : ℕ)
    (vs : List ℕ)
    → version_set ss cs i o ≡ v ∷ vs
    → (x : Bytes × ℕ) × (o ≡ some x) × (meets_all cs i x ≡ true) × (v ≡ (set_all ss x).1)
version_set-some ss cs i none v vs h = absurd (cc (h))
version_set-some ss cs i (some x) v vs h = elim (Bool-cases (meets_all cs i x)) [
  | inl e ↦ let q : (set_all ss x).1 ≡ v = cc (rw e at h) in (x, refl, e, sym q)
  | inr e ↦ absurd (cc (rw e at h))
]

set_at-returns :
    (t : Bytes) (ss : List Setting) (cs : List Condition) (s : Rows) (o : Option Bytes) (v : ℕ)
    (vs : List ℕ)
    → (set_at t ss cs s o).0 ≡ some (v ∷ vs)
    → (i : Bytes) × (x : Bytes × ℕ) × (s t i ≡ some x)
      × (meets_all cs i x ≡ true)
      × (v ≡ (set_all ss x).1)
set_at-returns t ss cs s none v vs h = absurd (cc (h))
set_at-returns t ss cs s (some i) v vs h =
    let (x, e, q, r) = version_set-some ss cs i (s t i) v vs (cc (h)) in (i, x, e, q, r)

execute_rows-fails :
    (q : Statement) (s : Rows)
    → (execute_rows q s).0 ≡ none
    → (u j : Bytes) → (execute_rows q s).1 u j ≡ s u j
execute_rows-fails (insert_or_set t i c n ss) s h u j = absurd (cc (h))
execute_rows-fails (set_where t ss cs) s h u j = unset (id_in cs) h
  where
    unset : (o : Option Bytes) → (set_at t ss cs s o).0 ≡ none → (set_at t ss cs s o).1 u j ≡ s u j
    unset none h = refl
    unset (some i) h = absurd (cc (h))

rows_engine-IsDocumented : IsDocumented rows_engine (λ s t i. s t i)
rows_engine-IsDocumented = record {
  sets = λ t ss cs s vs h. set_at-sets t ss cs s (id_in cs) vs h;
  returns_set = λ t ss cs s v vs h. set_at-returns t ss cs s (id_in cs) v vs h;
  inserts = λ t i c n ss s vs h u j. refl;
  failures = λ q s h u j. execute_rows-fails q s h u j;
}

abbrev shop : Bytes
shop = bytes "shop"

abbrev orders : Bytes
orders = bytes "orders"

-- The document "1" in its third version.
abbrev third : Rows
third = set_row (bytes "ext_shop_orders") (bytes "1") (some (bytes "{}", 3)) (λ t i. none)

orders_table : table_name shop orders ≡ returns (bytes "ext_shop_orders")
unfolding table_name
orders_table = refl

writes_fourth :
    (put_versioned rows_engine shop orders (bytes "1") (bytes "[]") 3 third).0 ≡ returns 4
unfolding put_versioned ◌=?◌
writes_fourth = refl

first_writer_wins_example :
    (put_versioned rows_engine shop orders (bytes "1") (bytes "0") 3 (
      puts rows_engine
        (λ s t i. s t i)
        rows_engine-IsDocumented
        ((shop, orders, bytes "1", bytes "2", 0) ∷ [])
        (put_versioned rows_engine shop orders (bytes "1") (bytes "[]") 3 third).1)).0
    ≢ returns 4
first_writer_wins_example =
    first_writer_wins rows_engine (λ s t i. s t i) rows_engine-IsDocumented shop orders
      (bytes "ext_shop_orders") (bytes "1") (bytes "[]") (bytes "0") 3 4 4
      ((shop, orders, bytes "1", bytes "2", 0) ∷ []) third orders_table (omega arith) writes_fourth

abbrev good_op : BatchOp
good_op = record { delete = false; collection = orders; doc_id = bytes "1"; content = bytes "7" }

abbrev bad_op : BatchOp
bad_op = record { delete = true; collection = bytes "no-table"; doc_id = bytes "1"; content = [] }

batch_write-atomic_example :
    Ended rows_engine true committed 2
      (apply_all rows_engine shop (good_op ∷ bad_op ∷ []) third)
      third
      (batch_write rows_engine false true committed shop (good_op ∷ bad_op ∷ []) third)
batch_write-atomic_example =
    batch_write-atomic rows_engine true committed shop good_op (bad_op ∷ []) third

stopped :
    batch_write rows_engine false true committed shop (good_op ∷ bad_op ∷ []) third
    ≡ (0, some (bad_identifier (bytes "no-table")), third)
unfolding batch_write
stopped = refl
