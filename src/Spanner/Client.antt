-- ===== src/Spanner/Client.antt =====
-- The client library of Spanner, which is not part of the program: what it answers to a read of keys,
-- a query, a commit of statements and a commit of new rows. A failure is its message.
use taobench.Prelude.{ℤ, Bytes, List, Option}
use taobench.Db.{DataTable, TimestampValue}
use taobench.Spanner.Statements.{Bound}

pub record SpannerClient : Type 1 where
  pub State : Type 0
  -- `Read` of the columns `timestamp` and `value` by a set of keys, each as its values: the rows of
  -- the stream, and the failure that ended it, if one did
  pub read : DataTable → List (List ℤ) → State → List TimestampValue × Option Bytes
  -- `ExecuteQuery` of the batch read
  pub query : Bound → State → List (ℤ × ℤ × ℤ) × Option Bytes
  -- `Commit` of `ExecuteDml` or of `ExecuteBatchDml`, with the library's own repetitions
  pub commit : List Bound → State → Option Bytes × State
  -- `Commit` of an insert mutation: each row as the values of its key, with its value
  pub commit_rows : DataTable → List (List ℤ × TimestampValue) → State → Option Bytes × State
