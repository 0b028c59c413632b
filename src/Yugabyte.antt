-- ===== src/Yugabyte.antt =====
-- yugabytedb/yugabytedb.cc, the driver for YugabyteDB.
pub mod Statements
pub mod Driver
pub mod Rows
pub mod Transactions
pub mod Contract
pub mod ReadOrder
pub mod Guards
pub mod Atomic
