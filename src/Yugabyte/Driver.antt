-- ===== src/Yugabyte/Driver.antt =====
-- The methods of `YugabyteDB`. An exception becomes `kError`; a failed assertion or a read out of bounds
-- does not. `ExecuteTransaction` always takes the prepared statements.
use taobench.Prelude.{ℤ, List, [], ◌∷◌, ◌++◌, Option, some, none, Bool, not, is_empty}
use taobench.Db.{
  DataTable, edges, objects, Field, TimestampValue, DbOperation, Operation, Status, k_ok, k_error,
  k_not_found, k_not_implemented, Outcome, returns, faults, Fault, ◌>>=◌, ◌>>◌, assert, edge_key,
  edge_key_values, object_key_value,
}
use taobench.Sql.{Operand, lit, quoted, insert_rows, int, ResultRow}
use taobench.Pq.Connection.{Connection, KeyRow}
use taobench.Pq.Operations.{bind_from, do_read, do_update, do_insert, do_delete}
use taobench.Pq.Transactions.{execute_transaction_prepared}
use taobench.Crdb.Driver.{or_null}
use taobench.Yugabyte.Statements.{prepared, batch_read_statement}

-- `as<int64_t>()` throws on a NULL, and `as<std::string>("NULL")` gives the default.
unfoldable pub value_of : ResultRow → Option TimestampValue
value_of (none, v) = none
value_of (some t, v) = some (record { timestamp = t; value = or_null v })

unfoldable pub key_of_row : KeyRow → Option (List Field)
key_of_row (some a, some b, some c) = some (edge_key a b c)
key_of_row _ = none

-- The loop over the rows of a batch read: an exception leaves the rows before it in the buffer.
unfoldable pub append_keys : List KeyRow → List (List Field) → Status × List (List Field)
unfolding key_of_row
append_keys [] buffer = (k_ok, buffer)
append_keys (row ∷ rows) buffer = elim (key_of_row row) [
  | none ↦ (k_error, buffer)
  | some key ↦ append_keys rows (buffer ++ key ∷ [])
]

unfoldable pub edge_rows : List (List Field) → List TimestampValue → Outcome (List (List Operand))
edge_rows [] tvs = returns []
edge_rows (key ∷ keys) [] = do (id1, id2, type) ← edge_key_values key; faults Fault.out_of_bounds
edge_rows (key ∷ keys) (tv ∷ tvs) = do
  (id1, id2, type) ← edge_key_values key
  rest ← edge_rows keys tvs
  returns ((lit id1 ∷ lit id2 ∷ lit type ∷ lit tv.timestamp ∷ quoted tv.value ∷ []) ∷ rest)

unfoldable pub object_rows : List (List Field) → List TimestampValue → Outcome (List (List Operand))
object_rows [] tvs = returns []
object_rows (key ∷ keys) [] = do id ← object_key_value key; faults Fault.out_of_bounds
object_rows (key ∷ keys) (tv ∷ tvs) = do
  id ← object_key_value key
  rest ← object_rows keys tvs
  returns ((lit id ∷ lit tv.timestamp ∷ quoted tv.value ∷ []) ∷ rest)

unfoldable pub status_of : {A : Type 0} → Option A → Status
status_of none = k_error
status_of (some a) = k_ok

module _ (conn : Connection) where
  open conn use {State}

  unfoldable pub first_row : List ResultRow → Outcome ResultRow
  first_row [] = conn.beyond
  first_row (row ∷ rows) = returns row

  unfoldable pub append_value :
      Option TimestampValue → List TimestampValue → State → Status × List TimestampValue × State
  append_value none buffer s = (k_error, buffer, s)
  append_value (some tv) buffer s = (k_ok, buffer ++ tv ∷ [], s)

  unfoldable pub read_result :
      Option (List ResultRow)
      → List TimestampValue
      → State
      → Outcome (Status × List TimestampValue × State)
  unfolding first_row value_of append_value
  read_result none buffer s = returns (k_error, buffer, s)
  read_result (some rows) buffer s = do
    row ← first_row rows
    returns (append_value (value_of row) buffer s)

  unfoldable pub read :
      DataTable
      → List Field
      → List TimestampValue
      → State
      → Outcome (Status × List TimestampValue × State)
  unfolding do_read read_result prepared
  read table key buffer s = do
    (rows, s') ← do_read conn prepared table key s
    read_result rows buffer s'

  unfoldable pub update : DataTable → List Field → TimestampValue → State → Outcome (Status × State)
  unfolding do_update prepared status_of
  update table key tv s = do
    (rows, s') ← do_update conn prepared table key tv s
    returns (status_of rows, s')

  unfoldable pub insert : DataTable → List Field → TimestampValue → State → Outcome (Status × State)
  unfolding do_insert prepared status_of
  insert table key tv s = do
    assert (not (is_empty key))
    (rows, s') ← do_insert conn prepared table key tv s
    returns (status_of rows, s')

  unfoldable pub delete : DataTable → List Field → TimestampValue → State → Outcome (Status × State)
  unfolding do_delete prepared status_of
  delete table key tv s = do
    (rows, s') ← do_delete conn prepared table key tv s
    returns (status_of rows, s')

  abbrev written :
      List TimestampValue
      → Outcome (Status × State)
      → Outcome (Status × List TimestampValue × State)
  written buffer r = do (status, s') ← r; returns (status, buffer, s')

  unfoldable pub execute_by :
      Operation
      → DbOperation
      → List TimestampValue
      → State
      → Outcome (Status × List TimestampValue × State)
  unfolding read insert update delete
  execute_by Operation.read op buffer s = read op.table op.key buffer s
  execute_by Operation.insert op buffer s =
      written buffer (insert op.table op.key op.time_and_value s)
  execute_by Operation.update op buffer s =
      written buffer (update op.table op.key op.time_and_value s)
  execute_by Operation.delete op buffer s =
      written buffer (delete op.table op.key op.time_and_value s)
  execute_by Operation.scan op buffer s = returns (k_not_implemented, buffer, s)
  execute_by Operation.read_modify_write op buffer s = returns (k_not_implemented, buffer, s)
  execute_by Operation.max_op_type op buffer s = returns (k_not_implemented, buffer, s)
  execute_by _ op buffer s = returns (k_not_found, buffer, s)

  unfoldable pub execute :
      DbOperation → List TimestampValue → State → Outcome (Status × List TimestampValue × State)
  unfolding execute_by
  execute op buffer s = execute_by op.operation op buffer s

  unfoldable pub batch_insert_edges :
      List (List Field) → List TimestampValue → State → Outcome (Status × State)
  unfolding edge_rows status_of
  batch_insert_edges keys tvs s = do
    rows ← edge_rows keys tvs
    let (result, s') = conn.exec (some (insert_rows edges rows) ∷ []) s
    returns (status_of result, s')

  unfoldable pub batch_insert_objects :
      List (List Field) → List TimestampValue → State → Outcome (Status × State)
  unfolding object_rows status_of
  batch_insert_objects keys tvs s = do
    assert (not (is_empty keys))
    rows ← object_rows keys tvs
    let (result, s') = conn.exec (some (insert_rows objects rows) ∷ []) s
    returns (status_of result, s')

  unfoldable pub batch_insert :
      DataTable → List (List Field) → List TimestampValue → State → Outcome (Status × State)
  unfolding batch_insert_edges batch_insert_objects
  batch_insert edges keys tvs s = batch_insert_edges keys tvs s
  batch_insert objects keys tvs s = batch_insert_objects keys tvs s

  unfoldable pub scan_result :
      Option (List KeyRow) → List (List Field) → State → Status × List (List Field) × State
  unfolding append_keys
  scan_result none buffer s = (k_error, buffer, s)
  scan_result (some rows) buffer s = ((append_keys rows buffer).0, (append_keys rows buffer).1, s)

  unfoldable pub batch_read :
      DataTable
      → List Field
      → List Field
      → ℤ
      → List (List Field)
      → State
      → Outcome (Status × List (List Field) × State)
  unfolding batch_read_statement bind_from scan_result
  batch_read table floor ceiling n buffer s = do
    (a, b, c) ← edge_key_values floor
    (a', b', c') ← edge_key_values ceiling
    let (rows, s') =
        conn.exec_prepared_scan batch_read_statement
          (bind_from 1 (int a ∷ int b ∷ int c ∷ int a' ∷ int b' ∷ int c' ∷ int n ∷ [])) s
    returns (scan_result rows buffer s')

  unfoldable pub execute_transaction :
      List DbOperation
      → List TimestampValue
      → Bool
      → State
      → Outcome (Status × List TimestampValue × State)
  unfolding execute_transaction_prepared value_of prepared
  execute_transaction ops buffer read_only s =
      execute_transaction_prepared conn prepared value_of ops buffer s
