-- ===== src/Crdb.antt =====
-- crdb/crdb_db.cc, the driver for CockroachDB.
pub mod Statements
pub mod Driver
pub mod Batch
pub mod Guards
pub mod Sorting
pub mod Atomic
pub mod LostRows
