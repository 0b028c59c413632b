-- ===== src/MySql.antt =====
-- mysqldb/mysql_db.cc, the driver for MySQL and TiDB.
pub mod Statements
pub mod Driver
pub mod Written
pub mod Transactions
pub mod Batches
pub mod Guards
pub mod Inserts
pub mod Deletes
pub mod WrittenEdges
pub mod Atomic
