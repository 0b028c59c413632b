-- ===== src/Lib.antt =====
-- TAOBench (cpp): a benchmark that sends the requests of a social graph to a database. Edges and
-- objects are rows with a timestamp and a text; a driver for each database implements the interface
-- `DB` (src/db.h); `DBWrapper` (src/db_wrapper.h) puts a memcached in front of the driver and counts
-- what it does (src/measurements.cc); the loader (src/workload_loader.cc) fills the database in batches
-- and reads its edges back in pages, over ranges of 64-bit keys that src/workload.cc generates and
-- src/benchmark.cc divides among the threads.
--
-- The files:
--   Prelude: numbers, texts, lists and tests that the others share. A text is the list of its bytes.
--   Db: src/db.h and src/edge.h; Db/Incompatible: `GetIncompatibleKeys` of src/db_utils.cc;
--     Db/Conflicts: what its lists mean.
--   Database: the abstract class `DB`, as a record of operations over a state.
--   Decimal: `std::to_string` and `std::stoll` as the C++ standard documents them.
--   Sql: statements with their conditions and parameters, evaluated on a row.
--   MySql: mysqldb/mysql_db.cc. Statements: the prepared statements; Driver: `Read`, `Update`, `Insert`,
--     `Delete`, `Execute`; Written and Transactions: the written statements and `ExecuteTransaction`;
--     Batches: `BatchInsert` and `BatchRead`. Guards, Inserts, Deletes, WrittenEdges and Atomic:
--     its theorems.
--   Spanner: spanner_db/spanner_db.cc. Statements, Driver and Transactions: the code, over the library's
--     client of Spanner/Client; the other files: its theorems.
--   Pq: the part of crdb/crdb_db.cc and yugabytedb/yugabytedb.cc that is the same in both: the
--     conditions, `DoRead` and its like, and the prepared transaction, over a connection of libpqxx;
--     Pq/Works and Pq/Inside: what a work relies on and keeps; Pq/KeyedRows: statements that fix a
--     primary key.
--   Crdb: crdb/crdb_db.cc, with its batched transaction in Crdb/Batch.
--   Yugabyte: yugabytedb/yugabytedb.cc; Rows, Transactions, Contract and ReadOrder: what its operations
--     make of the rows, and that it keeps the wrapper's contract.
--   Cache: src/memcache.cc: the texts of keys and values, and `get`, `put` and `invalidate`.
--   Measurements: src/measurements.h and src/measurements.cc; Measurements/Concurrent: `Report` as the
--     atomic steps of several threads; Past, Invariant, Steps, Finished and Progress: its
--     theorems.
--   Wrapper: src/db_wrapper.h: `Execute`, `ExecuteTransaction` and the batch calls; Wrapper/Contract:
--     what it relies on; Wrapper/Coherence, Execute, Transactions, ReadTransactions, WriteTransactions and
--     ShortReplies: its theorems.
--   Keys: `GenerateKey`, `GetShardStartKey` and `GetShardEndKey` of src/workload.cc, `GetShardFromKey` of
--     src/workload_loader.cc, and the loop of `RunTransactions` in src/benchmark.cc.
--   Loader: src/workload_loader.h and src/workload_loader.cc.
--   Workload: the requests of src/workload.cc, over a source of random numbers and a clock;
--     Workload/Retries: `DispatchRequest` and `DoRequest`; Workload/Requests: what the source and the
--     configuration give.
--   ReadPhase: the batch reads of `RunTransactions` in src/benchmark.cc, from the number of threads to
--     the map of the workload.
--   Inserting: `LoadRow` of src/workload.cc, `BatchInsertThread` of src/loaders.h, and the division of
--     the rows by `RunBatchInsert` in src/benchmark.cc.
--   Clients: src/countdown_latch.h, `ClientThread` of src/client.h and `StatusThread` of
--     src/benchmark.cc, as the steps of an experiment.
--   Text: `getline`, `find` and white space; Settings: src/properties.h, with `Trim` and `StrToBool` of
--     src/utils.h.
--   CommandLine: `ParseCommandLine` and `main` of src/benchmark.cc.
--   Experiments: src/experiment_loader.h. Config: src/parse_config.cc.
--   Tests: the theorems at concrete inputs, over small concrete servers.
--
-- The wrapper and the loader work over any `Database`; Spanner/Pages and Spanner/BatchInserts fill
-- the loader's interfaces with the driver for Spanner, Yugabyte/Contract and Yugabyte/ReadOrder the
-- wrapper's with the driver for YugabyteDB.
--
-- State is passed explicitly. A function that may throw, fail an assertion or read out of bounds
-- gives an `Outcome`. memcached, the databases' servers, their client libraries and the timer are
-- parameters; what a theorem relies on is a record of their documented behaviour. A statement is a
-- value of a small syntax that keeps its conditions and parameters, so that a condition can be
-- evaluated on a row; a text that is no statement is `none`. The batch read runs on fuel, one unit
-- for a page: more fuel than there are edges in its range is enough, since a page that is not empty
-- moves the range's start; the draws of a shard and the repetitions of a request run on fuel too,
-- and the theorems say how much is enough. The counters of measurements wrap at their widths; keys
-- stay below 2^63.
--
-- Threads are modelled where they share what the program itself keeps: calls of `Report` on the
-- counters, and the clients and the status thread on the latch. Any order of their steps is a run; a
-- relaxed load may give any earlier value, `compare_exchange_weak` may fail where it could succeed,
-- and a wait may end without a notification. The threads of the batch reads and of the batch insert
-- are taken one at a time.
--
-- The regular expression of the configuration file, `std::stod` and the contents of files are
-- parameters.
--
-- Not modelled: clocks, output, the logins of the drivers, YugabyteDB's scan and the batched
-- transaction that it never runs, the weights of the workload's draws, a `Reset` between the steps of
-- a `Report`, the interleaving of several threads on the cache, the set-up of the databases by the
-- factory, and what src/utils.h has of hashes and random numbers.
pub mod Prelude
pub mod Db
pub mod Sql
pub mod MySql
pub mod Spanner
pub mod Pq
pub mod Crdb
pub mod Yugabyte
pub mod Decimal
pub mod Cache
pub mod Measurements
pub mod Database
pub mod Wrapper
pub mod Keys
pub mod Loader
pub mod Workload
pub mod ReadPhase
pub mod Inserting
pub mod Clients
pub mod Config
pub mod Experiments
pub mod CommandLine
pub mod Settings
pub mod Text
pub mod Tests
