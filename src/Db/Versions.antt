-- ===== src/Db/Versions.antt =====
-- Versioned documents and batches of core/db/tx.go. A statement that writes a document is what its
-- text says: a table, settings and conditions. An `Engine` is what PostgreSQL does with the
-- statements, with `none` for an error. An expected version is not negative.
pub mod Locking
pub mod Batches
mod Tests
use moduless.Base.{
  ℕ, zero, suc, ◌+◌, Bool, true, false, List, [], ◌∷◌, if◌then◌else◌, Bytes, Option, none, some,
  ◌==◌,
}
use moduless.Db.Sql.{
  DbError, failed_statement, version_conflict, Outcome, fails, returns, ◌>>=◌, table_name,
}

-- A setting of SET: `data = $2` or `data = EXCLUDED.data`, `version = version + 1`, and
-- `updated_at = CURRENT_TIMESTAMP`.
pub data Setting : Type 0 where
  set_content : Bytes → Setting
  increment_version : Setting
  set_time : Setting

-- A condition of WHERE: `id = $1`, `version = $3`.
pub data Condition : Type 0 where
  has_id : Bytes → Condition
  has_version : ℕ → Condition

-- `INSERT INTO table (id, data, version) VALUES (...) ON CONFLICT (id) DO UPDATE SET ... RETURNING
-- version` with the id, the data, the version and the settings, and `UPDATE table SET ... WHERE ...
-- RETURNING version`.
pub data Statement : Type 0 where
  insert_or_set : Bytes → Bytes → Bytes → ℕ → List Setting → Statement
  set_where : Bytes → List Setting → List Condition → Statement

-- `execute` answers with the versions that are returned, one for each row that is written. `fetch`
-- and `remove` are the statements of `GetVersioned` and `DeleteIn`; the answer of `remove` is the
-- number of rows.
pub record Engine (Store : Type 0) : Type 0 where
  pub execute : Statement → Store → Option (List ℕ) × Store
  pub fetch : Bytes → Bytes → Store → Option (Option (Bytes × ℕ))
  pub remove : Bytes → Bytes → Store → Option (Option ℕ) × Store

-- The statement of `PutVersioned` without an expected version.
unfoldable pub upsert_statement : Bytes → Bytes → Bytes → Statement
upsert_statement table doc_id content =
    insert_or_set table doc_id content 1 (set_content content ∷ increment_version ∷ set_time ∷ [])

-- Its statement with an expected version.
unfoldable pub update_statement : Bytes → Bytes → Bytes → ℕ → Statement
update_statement table doc_id content expected =
    set_where table (set_content content ∷ increment_version ∷ set_time ∷ [])
      (has_id doc_id ∷ has_version expected ∷ [])

pub record BatchOp : Type 0 where
  pub delete : Bool
  pub collection : Bytes
  pub doc_id : Bytes
  pub content : Bytes

-- How `Commit` ends: without an error; with one, and the transaction is undone; or with one, and the
-- transaction is in the store nevertheless, as where the connection breaks before the answer.
pub data CommitEnd : Type 0 where
  committed : CommitEnd
  undone : CommitEnd
  unheard : CommitEnd

-- What `Scan` makes of the answers: without a row it is `sql.ErrNoRows`.
abbrev pub upsert_result : Bytes → Option (List ℕ) → Outcome ℕ
upsert_result table none = fails (failed_statement table)
upsert_result table (some []) = fails (failed_statement table)
upsert_result table (some (v ∷ vs)) = returns v

abbrev pub update_result : Bytes → Option (List ℕ) → Outcome ℕ
update_result table none = fails (failed_statement table)
update_result table (some []) = fails version_conflict
update_result table (some (v ∷ vs)) = returns v

-- `RowsAffected` with an error counts as no row.
abbrev pub remove_result : Bytes → Option (Option ℕ) → Outcome Bool
remove_result table none = fails (failed_statement table)
remove_result table (some none) = returns false
remove_result table (some (some zero)) = returns false
remove_result table (some (some (suc n))) = returns true

abbrev pub fetch_result : Bytes → Option (Option (Bytes × ℕ)) → Outcome (Option (Bytes × ℕ))
fetch_result table none = fails (failed_statement table)
fetch_result table (some row) = returns row

module _ {Store : Type 0} (engine : Engine Store) where
  unfoldable pub put_in : Bytes → Bytes → Bytes → ℕ → Store → Outcome ℕ × Store
  unfolding upsert_statement update_statement
  put_in table doc_id content expected s =
      if expected == 0
      then (let r = engine.execute (upsert_statement table doc_id content) s in
          (upsert_result table r.0, r.1))
      else (let r = engine.execute (update_statement table doc_id content expected) s in
          (update_result table r.0, r.1))

  unfoldable pub put_versioned : Bytes → Bytes → Bytes → Bytes → ℕ → Store → Outcome ℕ × Store
  unfolding table_name put_in
  put_versioned ext_key collection doc_id content expected s =
      elim (table_name ext_key collection) [
        | fails e ↦ (fails e, s)
        | returns table ↦ put_in table doc_id content expected s
      ]

  unfoldable pub get_versioned : Bytes → Bytes → Bytes → Store → Outcome (Option (Bytes × ℕ))
  unfolding table_name
  get_versioned ext_key collection doc_id s = do
    table ← table_name ext_key collection
    fetch_result table (engine.fetch table doc_id s)

  unfoldable pub delete_in : Bytes → Bytes → Bytes → Store → Outcome Bool × Store
  unfolding table_name
  delete_in ext_key collection doc_id s = elim (table_name ext_key collection) [
    | fails e ↦ (fails e, s)
    | returns table ↦ let r = engine.remove table doc_id s in (remove_result table r.0, r.1)
  ]

  -- The body of the loop of `applyBatch`; `none` is no error.
  abbrev pub error_of {ℓ} : {A : Type ℓ} → Outcome A → Option DbError
  error_of (fails e) = some e
  error_of (returns a) = none

  unfoldable pub apply_op : Bytes → BatchOp → Store → Option DbError × Store
  unfolding put_versioned delete_in
  apply_op ext_key op s =
      if op.delete
      then (let r = delete_in ext_key op.collection op.doc_id s in (error_of r.0, r.1))
      else (let r = put_versioned ext_key op.collection op.doc_id op.content 0 s in
          (error_of r.0, r.1))

  -- `applyBatch`: how many operations were applied, the error that stopped it, and the store.
  unfoldable pub apply_batch : Bytes → ℕ → List BatchOp → Store → ℕ × Option DbError × Store
  unfolding apply_op
  apply_batch ext_key applied [] s = (applied, none, s)
  apply_batch ext_key applied (op ∷ ops) s = elim (apply_op ext_key op s).0 [
    | some e ↦ (applied, some e, (apply_op ext_key op s).1)
    | none ↦ apply_batch ext_key (applied + 1) ops (apply_op ext_key op s).1
  ]

  -- The end of `BatchWrite` in a transaction of its own: what stays in the store when the
  -- transaction is rolled back, or its commit ends in a way.
  unfoldable pub settle :
      CommitEnd → Store → ℕ × Option DbError × Store → ℕ × Option DbError × Store
  settle end before (applied, some e, after) = (0, some e, before)
  settle committed before (applied, none, after) = (applied, none, after)
  settle undone before (applied, none, after) = (0, some (failed_statement []), before)
  settle unheard before (applied, none, after) = (0, some (failed_statement []), after)

  -- `BatchWrite`: `in_tx` tells that the caller's transaction is used, `begins` that `BeginTx`
  -- succeeds, and `end` how the commit ends.
  unfoldable pub batch_write :
      Bool → Bool → CommitEnd → Bytes → List BatchOp → Store → ℕ × Option DbError × Store
  unfolding apply_batch settle
  batch_write in_tx begins end ext_key [] s = (0, none, s)
  batch_write true begins end ext_key (op ∷ ops) s = apply_batch ext_key 0 (op ∷ ops) s
  batch_write false false end ext_key (op ∷ ops) s = (0, some (failed_statement []), s)
  batch_write false true end ext_key (op ∷ ops) s =
      settle end s (apply_batch ext_key 0 (op ∷ ops) s)
