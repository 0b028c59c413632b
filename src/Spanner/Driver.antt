-- ===== src/Spanner/Driver.antt =====
-- The methods of `SpannerDB`: `Read`, `Insert`, `Update`, `Delete`, `Execute`, `BatchInsert` and
-- `BatchRead`.
use taobench.Prelude.{
  ℤ, Bytes, codes, contains, List, [], ◌∷◌, ◌++◌, Option, some, none, if◌then◌else◌, map, Bool,
}
use taobench.Db.{
  DataTable, edges, objects, Field, TimestampValue, DbOperation, Operation, Status, k_ok, k_error,
  k_not_found, k_not_implemented, k_contention_error, Outcome, returns, faults, Fault, ◌>>=◌,
  edge_key_values, edge_key, object_key_value,
}
use taobench.Spanner.Statements.{
  Bound, get_update_edge_sql, get_update_object_sql, get_insert_edge_sql, get_insert_object_sql,
  get_delete_edge_sql, get_delete_object_sql, get_batch_read_sql,
}
use taobench.Spanner.Client.{SpannerClient}

-- `BuildEdgeKeySet` and `BuildObjectKeySet`: the values of each key, in the order of the calls of
-- `AddKey`.
unfoldable pub build_edge_key_set : List (List Field) → Outcome (List (List ℤ))
build_edge_key_set [] = returns []
build_edge_key_set (key ∷ keys) = do
  (id1, id2, type) ← edge_key_values key
  rest ← build_edge_key_set keys
  returns ((id1 ∷ id2 ∷ type ∷ []) ∷ rest)

unfoldable pub build_object_key_set : List (List Field) → Outcome (List (List ℤ))
build_object_key_set [] = returns []
build_object_key_set (key ∷ keys) = do
  id ← object_key_value key
  rest ← build_object_key_set keys
  returns ((id ∷ []) ∷ rest)

unfoldable pub key_set : DataTable → List (List Field) → Outcome (List (List ℤ))
key_set edges keys = build_edge_key_set keys
key_set objects keys = build_object_key_set keys

unfoldable pub is_contention_message : Bytes → Bool
is_contention_message msg = contains msg (codes "Transaction was aborted")

-- What a method makes of the result of a commit.
unfoldable pub commit_status : Option Bytes → Status
unfolding is_contention_message
commit_status none = k_ok
commit_status (some msg) = if is_contention_message msg then k_contention_error else k_error

-- `BatchInsert` does not look at the message.
unfoldable pub batch_status : Option Bytes → Status
batch_status none = k_ok
batch_status (some msg) = k_error

-- The end of `Read`, after its loop over the rows.
unfoldable pub after_rows :
    List TimestampValue
    → Option Bytes
    → List TimestampValue
    → Outcome (Status × List TimestampValue)
after_rows rows (some msg) buffer = returns (k_error, buffer ++ rows)
after_rows [] none buffer = returns (k_not_found, buffer)
after_rows (row ∷ []) none buffer = returns (k_ok, buffer ++ row ∷ [])
after_rows (row ∷ next ∷ rows) none buffer = faults Fault.assertion

unfoldable pub get_update_sql : DataTable → List Field → TimestampValue → Outcome Bound
get_update_sql edges key tv = get_update_edge_sql key tv
get_update_sql objects key tv = get_update_object_sql key tv

unfoldable pub get_insert_sql : DataTable → List Field → TimestampValue → Outcome Bound
get_insert_sql edges key tv = get_insert_edge_sql key tv
get_insert_sql objects key tv = get_insert_object_sql key tv

unfoldable pub get_delete_sql : DataTable → List Field → TimestampValue → Outcome Bound
get_delete_sql edges key tv = get_delete_edge_sql key tv
get_delete_sql objects key tv = get_delete_object_sql key tv

-- The rows of an insert mutation. A key with no value beside it reads beyond the values.
unfoldable pub mutation_rows :
    DataTable → List (List Field) → List TimestampValue → Outcome (List (List ℤ × TimestampValue))
mutation_rows t [] tvs = returns []
mutation_rows edges (key ∷ keys) [] = do
  (id1, id2, type) ← edge_key_values key
  faults Fault.out_of_bounds
mutation_rows objects (key ∷ keys) [] = do id ← object_key_value key; faults Fault.out_of_bounds
mutation_rows edges (key ∷ keys) (tv ∷ tvs) = do
  (id1, id2, type) ← edge_key_values key
  rest ← mutation_rows edges keys tvs
  returns ((id1 ∷ id2 ∷ type ∷ [], tv) ∷ rest)
mutation_rows objects (key ∷ keys) (tv ∷ tvs) = do
  id ← object_key_value key
  rest ← mutation_rows objects keys tvs
  returns ((id ∷ [], tv) ∷ rest)

abbrev pub key_fields : ℤ × ℤ × ℤ → List Field
key_fields (id1, id2, type) = edge_key id1 id2 type

unfoldable pub scan_status : Option Bytes → Status
scan_status none = k_ok
scan_status (some msg) = k_error

module _ (client : SpannerClient) where
  open client use {State}

  unfoldable pub read :
      DataTable
      → List Field
      → List TimestampValue
      → State
      → Outcome (Status × List TimestampValue × State)
  unfolding key_set after_rows
  read table key buffer s = do
    keys ← key_set table (key ∷ [])
    (status, buffer') ← after_rows (client.read table keys s).0 (client.read table keys s).1 buffer
    returns (status, buffer', s)

  unfoldable pub write : Bound → State → Outcome (Status × State)
  unfolding commit_status
  write stmt s =
      let (result, s') = client.commit (stmt ∷ []) s in returns (commit_status result, s')

  unfoldable pub insert : DataTable → List Field → TimestampValue → State → Outcome (Status × State)
  unfolding get_insert_sql write
  insert table key tv s = do stmt ← get_insert_sql table key tv; write stmt s

  unfoldable pub update : DataTable → List Field → TimestampValue → State → Outcome (Status × State)
  unfolding get_update_sql write
  update table key tv s = do stmt ← get_update_sql table key tv; write stmt s

  unfoldable pub delete : DataTable → List Field → TimestampValue → State → Outcome (Status × State)
  unfolding get_delete_sql write
  delete table key tv s = do stmt ← get_delete_sql table key tv; write stmt s

  abbrev written :
      List TimestampValue
      → Outcome (Status × State)
      → Outcome (Status × List TimestampValue × State)
  written buffer r = do (status, s') ← r; returns (status, buffer, s')

  unfoldable pub execute_by :
      Operation
      → DbOperation
      → List TimestampValue
      → State
      → Outcome (Status × List TimestampValue × State)
  unfolding read insert update delete
  execute_by Operation.read op buffer s = read op.table op.key buffer s
  execute_by Operation.delete op buffer s =
      written buffer (delete op.table op.key op.time_and_value s)
  execute_by Operation.update op buffer s =
      written buffer (update op.table op.key op.time_and_value s)
  execute_by Operation.insert op buffer s =
      written buffer (insert op.table op.key op.time_and_value s)
  execute_by _ op buffer s = returns (k_not_implemented, buffer, s)

  unfoldable pub execute :
      DbOperation → List TimestampValue → State → Outcome (Status × List TimestampValue × State)
  unfolding execute_by
  execute op buffer s = execute_by op.operation op buffer s

  unfoldable pub batch_insert :
      DataTable → List (List Field) → List TimestampValue → State → Outcome (Status × State)
  unfolding batch_status mutation_rows
  batch_insert table keys tvs s = do
    rows ← mutation_rows table keys tvs
    let (result, s') = client.commit_rows table rows s
    returns (batch_status result, s')

  unfoldable pub batch_read :
      DataTable
      → List Field
      → List Field
      → ℤ
      → List (List Field)
      → State
      → Outcome (Status × List (List Field) × State)
  unfolding scan_status
  batch_read table floor ceiling n buffer s = do
    stmt ← get_batch_read_sql floor ceiling n
    let (rows, failure) = client.query stmt s
    returns (scan_status failure, buffer ++ map key_fields rows, s)
