-- ===== src/Spanner.antt =====
-- spanner_db/spanner_db.cc, the driver for Spanner.
pub mod Statements
pub mod Client
pub mod Driver
pub mod Transactions
pub mod Guards
pub mod Inserts
pub mod BatchInserts
pub mod Intervals
pub mod ReadTransactions
pub mod RepeatedIds
pub mod Pages
