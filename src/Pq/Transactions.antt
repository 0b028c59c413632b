-- ===== src/Pq/Transactions.antt =====
-- `ExecuteTransactionPrepared`: each operation as a prepared statement in a `pqxx::work`. The two
-- drivers differ in how a row becomes a value.
use taobench.Prelude.{List, [], ◌∷◌, ◌++◌, Option, some, none, if◌then◌else◌}
use taobench.Db.{
  TimestampValue, DbOperation, Operation, Status, k_ok, k_error, k_not_found, k_not_implemented,
  Outcome, returns, ◌>>=◌,
}
use taobench.Sql.{ResultRow}
use taobench.Pq.Connection.{Connection}
use taobench.Pq.Operations.{Prepared, do_read, do_update, do_insert, do_delete}

-- How a row becomes a value; `none` is an exception.
abbrev pub Convert : Type 0
Convert = ResultRow → Option TimestampValue

-- The loop over the rows of a result: an exception leaves the values before it in the buffer. The
-- status is that of an early end.
unfoldable pub append_rows :
    Convert → List ResultRow → List TimestampValue → Option Status × List TimestampValue
append_rows convert [] buffer = (none, buffer)
append_rows convert (row ∷ rows) buffer = elim (convert row) [
  | none ↦ (some k_error, buffer)
  | some tv ↦ append_rows convert rows (buffer ++ tv ∷ [])
]

module _ (conn : Connection) (prepared : Prepared) (convert : Convert) where
  open conn use {State}

  -- An early end of the transaction with its status, the results, and the state.
  abbrev pub Progress : Type 0
  Progress = Option Status × List TimestampValue × State

  unfoldable pub after_read : Option (List ResultRow) → List TimestampValue → State → Progress
  unfolding append_rows
  after_read none buffer s = (some k_error, buffer, s)
  after_read (some rows) buffer s =
      ((append_rows convert rows buffer).0, (append_rows convert rows buffer).1, s)

  unfoldable pub after_write : Option (List ResultRow) → List TimestampValue → State → Progress
  after_write none buffer s = (some k_error, buffer, s)
  after_write (some rows) buffer s = (none, buffer, s)

  unfoldable pub run_operation :
      Operation → DbOperation → List TimestampValue → State → Outcome Progress
  unfolding after_read after_write do_read do_update do_insert do_delete
  run_operation Operation.read op buffer s = do
    (rows, s') ← do_read conn prepared op.table op.key s
    returns (after_read rows buffer s')
  run_operation Operation.insert op buffer s = do
    (rows, s') ← do_insert conn prepared op.table op.key op.time_and_value s
    returns (after_write rows buffer s')
  run_operation Operation.update op buffer s = do
    (rows, s') ← do_update conn prepared op.table op.key op.time_and_value s
    returns (after_write rows buffer s')
  run_operation Operation.delete op buffer s = do
    (rows, s') ← do_delete conn prepared op.table op.key op.time_and_value s
    returns (after_write rows buffer s')
  run_operation Operation.scan op buffer s = returns (some k_not_implemented, buffer, s)
  run_operation Operation.read_modify_write op buffer s =
      returns (some k_not_implemented, buffer, s)
  run_operation Operation.max_op_type op buffer s = returns (some k_not_implemented, buffer, s)
  run_operation _ op buffer s = returns (some k_not_found, buffer, s)

  unfoldable pub run_operations : List DbOperation → List TimestampValue → State → Outcome Progress
  unfolding run_operation
  run_operations [] buffer s = returns (none, buffer, s)
  run_operations (op ∷ ops) buffer s = do
    (stop, buffer', s') ← run_operation op.operation op buffer s
    elim stop [
      | some status ↦ returns (some status, buffer', s')
      | none ↦ run_operations ops buffer' s'
    ]

-- The end of a work: it is committed, or destroyed without.
unfoldable pub finish :
    (conn : Connection)
    → Option Status
    → List TimestampValue
    → conn.State
    → Status × List TimestampValue × conn.State
finish conn (some status) buffer s = (status, buffer, conn.abort s)
finish conn none buffer s =
    let (done, s') = conn.commit s in if done then (k_ok, buffer, s') else (k_error, buffer, s')

-- A `try` block around a `pqxx::work` with its body.
unfoldable pub with_work :
    (conn : Connection)
    → (conn.State → Outcome (Option Status × List TimestampValue × conn.State))
    → List TimestampValue
    → conn.State
    → Outcome (Status × List TimestampValue × conn.State)
unfolding finish
with_work conn body buffer s =
    let (started, s') = conn.start_work s in
    let run = body s' in
    if started
    then (do (stop, buffer', s'') ← run; returns (finish conn stop buffer' s''))
    else returns (k_error, buffer, s')

unfoldable pub execute_transaction_prepared :
    (conn : Connection)
    → Prepared
    → Convert
    → List DbOperation
    → List TimestampValue
    → conn.State
    → Outcome (Status × List TimestampValue × conn.State)
unfolding run_operations with_work
execute_transaction_prepared conn prepared convert ops buffer s =
    with_work conn (run_operations conn prepared convert ops buffer) buffer s
