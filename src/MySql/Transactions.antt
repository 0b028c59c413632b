-- ===== src/MySql/Transactions.antt =====
-- `MySqlDB::ExecuteTransaction`: one script of all operations, and a rollback where it fails.
use taobench.Prelude.{ℕ, ◌==◌, List, [], ◌∷◌, ◌++◌, Option, none, some, Bool, if◌then◌else◌}
use mathlib.Core.Option
use taobench.Db.{
  TimestampValue, DbOperation, Status, k_ok, k_error, k_not_implemented, k_contention_error,
  Outcome, returns, ◌>>=◌,
}
use taobench.Sql.{Statement, Server}
use taobench.MySql.Written.{statement, nothing, unsupported, write_operation}

-- The loop over the operations; `none` is the early return at one that is not supported.
unfoldable pub write_script : List DbOperation → Outcome (Option (List (Option Statement)))
unfolding write_operation
write_script [] = returns (some [])
write_script (op ∷ ops) = do
  w ← write_operation op.operation op.table op
  elim w [
    | statement stmt ↦ (do rest ← write_script ops; returns (Option.map (◌∷◌ (some stmt)) rest))
    | nothing ↦ (do rest ← write_script ops; returns (Option.map (◌∷◌ none) rest))
    | unsupported ↦ returns none
  ]

-- The code of a deadlock.
abbrev pub deadlock : ℕ
deadlock = 1213

module _ (db : Server) where
  open db use {State}

  -- A failure of the rollback is printed, and its state is kept like that of a success.
  unfoldable pub after_script :
      List TimestampValue × Option ℕ × State
      → List TimestampValue
      → Status × List TimestampValue × State
  after_script (rows, none, s) buffer = (k_ok, buffer ++ rows, s)
  after_script (rows, some code, s) buffer =
      (if code == deadlock then k_contention_error else k_error, buffer ++ rows, (db.rollback s).1)

  unfoldable pub run_script :
      Option (List (Option Statement))
      → List TimestampValue
      → State
      → Status × List TimestampValue × State
  unfolding after_script
  run_script none buffer s = (k_not_implemented, buffer, s)
  run_script (some stmts) buffer s = after_script (db.execute_script stmts s) buffer

  unfoldable pub execute_transaction :
      List DbOperation
      → List TimestampValue
      → Bool
      → State
      → Outcome (Status × List TimestampValue × State)
  unfolding write_script run_script
  execute_transaction ops buffer read_only s = do
    script ← write_script ops
    returns (run_script script buffer s)
