-- ===== src/Spanner/Transactions.antt =====
-- `SpannerDB::ExecuteTransaction`.
use taobench.Prelude.{
  ℤ, List, [], ◌∷◌, ◌++◌, some, none, if◌then◌else◌, ◌==ℤ◌, any, Bool, true, false, is_empty, not,
}
use taobench.Db.{
  DataTable, edges, objects, Field, TimestampValue, DbOperation, Operation, Status, k_ok, k_error,
  Outcome, returns, faults, Fault, ◌>>=◌, ◌>>◌, assert, first_one,
}
use taobench.Spanner.Statements.{Bound}
use taobench.Spanner.Client.{SpannerClient}
use taobench.Spanner.Driver.{
  build_edge_key_set, build_object_key_set, get_update_sql, get_insert_sql, get_delete_sql,
  commit_status,
}

unfoldable pub is_read : Operation → Bool
is_read Operation.read = true
is_read _ = false

-- The two lists of keys, and the sets of first ids that are in them.
pub record ReadKeys : Type 0 where
  pub edge_keys : List (List Field)
  pub object_keys : List (List Field)
  pub edge_ids : List ℤ
  pub object_ids : List ℤ

abbrev pub no_keys : ReadKeys
no_keys = record { edge_keys = []; object_keys = []; edge_ids = []; object_ids = [] }

abbrev pub is_among : ℤ → List ℤ → Bool
is_among id ids = any (λ i. i ==ℤ id) ids

-- The `else if` of the loop: it is reached by an object, and by an edge whose first id is in already.
unfoldable pub add_object_key : List Field → ℤ → ReadKeys → ReadKeys
add_object_key key id ks =
    if is_among id ks.object_ids
    then ks
    else record ks { object_keys = ks.object_keys ++ key ∷ []; object_ids = id ∷ ks.object_ids }

unfoldable pub add_key : DataTable → List Field → ℤ → ReadKeys → ReadKeys
unfolding add_object_key
add_key edges key id ks =
    if is_among id ks.edge_ids
    then add_object_key key id ks
    else record ks { edge_keys = ks.edge_keys ++ key ∷ []; edge_ids = id ∷ ks.edge_ids }
add_key objects key id ks = add_object_key key id ks

unfoldable pub collect_keys : List DbOperation → ReadKeys → Outcome ReadKeys
unfolding is_read first_one add_key
collect_keys [] ks = returns ks
collect_keys (op ∷ ops) ks = do
  assert (is_read op.operation)
  id ← first_one op.key
  collect_keys ops (add_key op.table op.key id ks)

-- The statement of an operation in a write transaction.
unfoldable pub dml_statement : Operation → DbOperation → Outcome Bound
unfolding get_update_sql get_insert_sql get_delete_sql
dml_statement Operation.update op = get_update_sql op.table op.key op.time_and_value
dml_statement Operation.insert op = get_insert_sql op.table op.key op.time_and_value
dml_statement Operation.delete op = get_delete_sql op.table op.key op.time_and_value
dml_statement _ op = faults Fault.invalid_argument

unfoldable pub dml_statements : List DbOperation → Outcome (List Bound)
unfolding dml_statement
dml_statements [] = returns []
dml_statements (op ∷ ops) = do
  stmt ← dml_statement op.operation op
  stmts ← dml_statements ops
  returns (stmt ∷ stmts)

module _ (client : SpannerClient) where
  open client use {State}

  -- A read of the objects, if there are any, after the edges.
  unfoldable pub read_objects :
      List (List Field)
      → List TimestampValue
      → State
      → Outcome (Status × List TimestampValue × State)
  read_objects [] buffer s = returns (k_ok, buffer, s)
  read_objects (key ∷ keys) buffer s = do
    set ← build_object_key_set (key ∷ keys)
    let (rows, failure) = client.read objects set s
    elim failure [
      | none ↦ returns (k_ok, buffer ++ rows, s)
      | some msg ↦ returns (k_error, buffer ++ rows, s)
    ]

  unfoldable pub read_edges :
      List (List Field)
      → List (List Field)
      → List TimestampValue
      → State
      → Outcome (Status × List TimestampValue × State)
  unfolding read_objects
  read_edges [] object_keys buffer s = read_objects object_keys buffer s
  read_edges (key ∷ keys) object_keys buffer s = do
    set ← build_edge_key_set (key ∷ keys)
    let (rows, failure) = client.read edges set s
    elim failure [
      | none ↦ read_objects object_keys (buffer ++ rows) s
      | some msg ↦ returns (k_error, buffer ++ rows, s)
    ]

  unfoldable pub transaction_by :
      Bool
      → List DbOperation
      → List TimestampValue
      → State
      → Outcome (Status × List TimestampValue × State)
  unfolding collect_keys read_edges dml_statements commit_status
  transaction_by true ops buffer s = do
    ks ← collect_keys ops no_keys
    read_edges ks.edge_keys ks.object_keys buffer s
  transaction_by false ops buffer s = do
    stmts ← dml_statements ops
    let (result, s') = client.commit stmts s
    returns (commit_status result, buffer, s')

  unfoldable pub execute_transaction :
      List DbOperation
      → List TimestampValue
      → Bool
      → State
      → Outcome (Status × List TimestampValue × State)
  unfolding transaction_by
  execute_transaction ops buffer read_only s = do
    assert (not (is_empty ops))
    transaction_by read_only ops buffer s
