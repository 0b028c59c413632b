-- ===== src/Sql/Connection.antt =====
-- The servers and client libraries behind the drivers, which are not part of the program: what a
-- connection answers to a statement, and to a script that runs as one transaction.
use taobench.Prelude.{ℕ, ℤ, Bytes, List, Option, Bool}
use taobench.Db.{TimestampValue}
use taobench.Sql.Syntax.{Statement, Bindings}

-- A row of `SELECT timestamp, value`, whose columns may be NULL.
abbrev pub ResultRow : Type 0
ResultRow = Option ℤ × Option Bytes

pub data Reply : Type 0 where
  rows : List ResultRow → Reply
  error : ℕ → Reply

pub record Server : Type 1 where
  pub State : Type 0
  -- a prepared statement with its parameters
  pub execute : Statement → Bindings → State → Reply × State
  -- START TRANSACTION; …; COMMIT, where a statement may be empty: the rows that were read, as the
  -- library converts them, and an error's code if there was one
  pub execute_script : List (Option Statement) → State → List TimestampValue × Option ℕ × State
  -- a statement with no parameters: whether it succeeded
  pub query : Statement → State → Bool × State
  -- a batch read: its rows as texts, `none` for an error
  pub query_keys : Statement → State → Option (List (Bytes × Bytes × Bytes)) × State
  -- ROLLBACK
  pub rollback : State → Option ℕ × State
