-- ===== src/Pq.antt =====
-- What the drivers over libpqxx have in common, crdb/crdb_db.cc and yugabytedb/yugabytedb.cc: the
-- library's connection, the statements by their names, and the functions `DoRead`, `DoUpdate`,
-- `DoInsert` and `DoDelete`, which the two files repeat word for word.
pub mod Connection
pub mod Conditions
pub mod Operations
pub mod Transactions
pub mod Find
pub mod Works
pub mod KeyedRows
pub mod Inside
