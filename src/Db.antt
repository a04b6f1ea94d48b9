-- ===== src/Db.antt =====
-- The document store of core/db, in which each plugin keeps its data: cmds.go, query.go, tx.go.
pub mod Sql
pub mod Query
pub mod Pages
pub mod Tx
pub mod Versions
