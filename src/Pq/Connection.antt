-- ===== src/Pq/Connection.antt =====
-- A connection of libpqxx, which is not part of the program. A result that is `none` is an exception.
use taobench.Prelude.{ℤ, List, Option, Bool}
use taobench.Db.{Outcome}
use taobench.Sql.{Statement, Bindings, ResultRow}

-- A row of the batch read, whose columns may be NULL.
abbrev pub KeyRow : Type 0
KeyRow = Option ℤ × Option ℤ × Option ℤ

pub record Connection : Type 1 where
  pub State : Type 0
  -- a prepared statement with its parameters
  pub exec_prepared : Statement → Bindings → State → Option (List ResultRow) × State
  pub exec_prepared_scan : Statement → Bindings → State → Option (List KeyRow) × State
  -- a text of several statements, `none` where the text is no statement
  pub exec : List (Option Statement) → State → Option (List ResultRow) × State
  -- `result[0]` of a result with no rows, which the library does not check
  pub beyond : Outcome ResultRow
  -- the constructor of `pqxx::work`, `commit`, and the destructor of a work that is not committed
  pub start_work : State → Bool × State
  pub commit : State → Bool × State
  pub abort : State → State
