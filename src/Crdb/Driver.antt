-- ===== src/Crdb/Driver.antt =====
-- The methods of `CrdbDB` for one operation, and its batches. An exception becomes `kError`; a failed
-- assertion or a read out of bounds does not.
use taobench.Prelude.{ℤ, pos, Bytes, codes, List, [], ◌∷◌, ◌++◌, Option, some, none, map}
use taobench.Db.{
  DataTable, edges, objects, Field, TimestampValue, DbOperation, Operation, Status, k_ok, k_error,
  k_not_found, k_not_implemented, Outcome, returns, faults, Fault, ◌>>=◌, edge_key, edge_key_values,
  object_key_value,
}
use taobench.Sql.{Operand, lit, quoted, insert_rows, int, ResultRow}
use taobench.Pq.Connection.{Connection, KeyRow}
use taobench.Pq.Operations.{bind_from, do_read, do_update, do_insert, do_delete}
use taobench.Crdb.Statements.{prepared, batch_read_statement}

abbrev pub or_zero : Option ℤ → ℤ
or_zero none = pos 0
or_zero (some n) = n

abbrev pub or_null : Option Bytes → Bytes
or_null none = codes "NULL"
or_null (some v) = v

-- `as<int64_t>(0)` and `as<std::string>("NULL")`: a NULL becomes the default.
unfoldable pub value_of : ResultRow → TimestampValue
value_of (t, v) = record { timestamp = or_zero t; value = or_null v }

-- The row of the fields of a batch read.
unfoldable pub key_of_row : KeyRow → List Field
key_of_row (a, b, c) = edge_key (or_zero a) (or_zero b) (or_zero c)

-- The rows of a batch insert, as they are written into the text; `quote` makes a value a literal.
unfoldable pub row_operands :
    DataTable → List (List Field) → List TimestampValue → Outcome (List (List Operand))
row_operands t [] tvs = returns []
row_operands edges (key ∷ keys) [] = do
  (id1, id2, type) ← edge_key_values key
  faults Fault.out_of_bounds
row_operands objects (key ∷ keys) [] = do id ← object_key_value key; faults Fault.out_of_bounds
row_operands edges (key ∷ keys) (tv ∷ tvs) = do
  (id1, id2, type) ← edge_key_values key
  rest ← row_operands edges keys tvs
  returns ((lit id1 ∷ lit id2 ∷ lit type ∷ lit tv.timestamp ∷ quoted tv.value ∷ []) ∷ rest)
row_operands objects (key ∷ keys) (tv ∷ tvs) = do
  id ← object_key_value key
  rest ← row_operands objects keys tvs
  returns ((lit id ∷ lit tv.timestamp ∷ quoted tv.value ∷ []) ∷ rest)

-- The status of a `try` block that ends in `return kOK`.
unfoldable pub status_of : {A : Type 0} → Option A → Status
status_of none = k_error
status_of (some a) = k_ok

module _ (conn : Connection) where
  open conn use {State}

  -- `queryRes[0]`.
  unfoldable pub first_row : List ResultRow → Outcome ResultRow
  first_row [] = conn.beyond
  first_row (row ∷ rows) = returns row

  unfoldable pub read_result :
      Option (List ResultRow)
      → List TimestampValue
      → State
      → Outcome (Status × List TimestampValue × State)
  unfolding first_row value_of
  read_result none buffer s = returns (k_error, buffer, s)
  read_result (some rows) buffer s = do
    row ← first_row rows
    returns (k_ok, buffer ++ value_of row ∷ [], s)

  unfoldable pub read :
      DataTable
      → List Field
      → List TimestampValue
      → State
      → Outcome (Status × List TimestampValue × State)
  unfolding do_read read_result prepared
  read table key buffer s = do
    (rows, s') ← do_read conn prepared table key s
    read_result rows buffer s'

  unfoldable pub update : DataTable → List Field → TimestampValue → State → Outcome (Status × State)
  unfolding do_update prepared status_of
  update table key tv s = do
    (rows, s') ← do_update conn prepared table key tv s
    returns (status_of rows, s')

  unfoldable pub insert : DataTable → List Field → TimestampValue → State → Outcome (Status × State)
  unfolding do_insert prepared status_of
  insert table key tv s = do
    (rows, s') ← do_insert conn prepared table key tv s
    returns (status_of rows, s')

  unfoldable pub delete : DataTable → List Field → TimestampValue → State → Outcome (Status × State)
  unfolding do_delete prepared status_of
  delete table key tv s = do
    (rows, s') ← do_delete conn prepared table key tv s
    returns (status_of rows, s')

  abbrev written :
      List TimestampValue
      → Outcome (Status × State)
      → Outcome (Status × List TimestampValue × State)
  written buffer r = do (status, s') ← r; returns (status, buffer, s')

  unfoldable pub execute_by :
      Operation
      → DbOperation
      → List TimestampValue
      → State
      → Outcome (Status × List TimestampValue × State)
  unfolding read insert update delete
  execute_by Operation.read op buffer s = read op.table op.key buffer s
  execute_by Operation.insert op buffer s =
      written buffer (insert op.table op.key op.time_and_value s)
  execute_by Operation.update op buffer s =
      written buffer (update op.table op.key op.time_and_value s)
  execute_by Operation.delete op buffer s =
      written buffer (delete op.table op.key op.time_and_value s)
  execute_by Operation.scan op buffer s = returns (k_not_implemented, buffer, s)
  execute_by Operation.read_modify_write op buffer s = returns (k_not_implemented, buffer, s)
  execute_by Operation.max_op_type op buffer s = returns (k_not_implemented, buffer, s)
  execute_by _ op buffer s = returns (k_not_found, buffer, s)

  unfoldable pub execute :
      DbOperation → List TimestampValue → State → Outcome (Status × List TimestampValue × State)
  unfolding execute_by
  execute op buffer s = execute_by op.operation op buffer s

  -- `BatchInsertEdges` and `BatchInsertObjects`.
  unfoldable pub batch_insert :
      DataTable → List (List Field) → List TimestampValue → State → Outcome (Status × State)
  unfolding row_operands status_of
  batch_insert table keys tvs s = do
    rows ← row_operands table keys tvs
    let (result, s') = conn.exec (some (insert_rows table rows) ∷ []) s
    returns (status_of result, s')

  unfoldable pub scan_result :
      Option (List KeyRow) → List (List Field) → State → Status × List (List Field) × State
  unfolding key_of_row
  scan_result none buffer s = (k_error, buffer, s)
  scan_result (some rows) buffer s = (k_ok, buffer ++ map key_of_row rows, s)

  unfoldable pub batch_read :
      DataTable
      → List Field
      → List Field
      → ℤ
      → List (List Field)
      → State
      → Outcome (Status × List (List Field) × State)
  unfolding batch_read_statement bind_from scan_result
  batch_read table floor ceiling n buffer s = do
    (a, b, c) ← edge_key_values floor
    (a', b', c') ← edge_key_values ceiling
    let (rows, s') =
        conn.exec_prepared_scan batch_read_statement
          (bind_from 1 (int a ∷ int b ∷ int c ∷ int a' ∷ int b' ∷ int c' ∷ int n ∷ [])) s
    returns (scan_result rows buffer s')
