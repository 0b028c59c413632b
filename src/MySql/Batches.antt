-- ===== src/MySql/Batches.antt =====
-- `MySqlDB::BatchInsert` and `MySqlDB::BatchRead`. The texts put numbers between quotes in places, as
-- written.
use taobench.Prelude.{
  ℤ, Bytes, List, [], ◌∷◌, ◌++◌, Option, none, some, Bool, true, false, not, is_empty,
}
use taobench.Db.{
  DataTable, edges, objects, Field, TimestampValue, Status, k_ok, k_error, Outcome, returns, faults,
  Fault, ◌>>=◌, ◌>>◌, assert, edge_key, edge_key_values, object_key_value,
}
use taobench.Decimal.{to_string, stoll}
use taobench.Sql.{Operand, lit, quoted, and, after, before, Statement, insert_rows, scan, Server}

-- The id of an object is written between quotes.
unfoldable pub object_rows : List (List Field) → List TimestampValue → Outcome (List (List Operand))
object_rows [] tvs = returns []
object_rows (key ∷ keys) [] = do id ← object_key_value key; faults Fault.out_of_bounds
object_rows (key ∷ keys) (tv ∷ tvs) = do
  id ← object_key_value key
  rest ← object_rows keys tvs
  returns ((quoted (to_string id) ∷ lit tv.timestamp ∷ quoted tv.value ∷ []) ∷ rest)

unfoldable pub edge_rows : List (List Field) → List TimestampValue → Outcome (List (List Operand))
edge_rows [] tvs = returns []
edge_rows (key ∷ keys) [] = do (id1, id2, type) ← edge_key_values key; faults Fault.out_of_bounds
edge_rows (key ∷ keys) (tv ∷ tvs) = do
  (id1, id2, type) ← edge_key_values key
  rest ← edge_rows keys tvs
  returns ((lit id1 ∷ lit id2 ∷ lit type ∷ lit tv.timestamp ∷ quoted tv.value ∷ []) ∷ rest)

-- "(id1, id2, type) > ('…','…','…') AND (id1, id2, type) < ('…','…','…') ORDER BY … LIMIT n".
unfoldable pub batch_read_sql : ℤ × ℤ × ℤ → ℤ × ℤ × ℤ → ℤ → Statement
batch_read_sql (a, b, c) (a', b', c') n =
    scan
      (and (after (quoted (to_string a)) (quoted (to_string b)) (quoted (to_string c)))
        (before (quoted (to_string a')) (quoted (to_string b')) (quoted (to_string c'))))
      true (lit n)

-- The loop over the rows of a result.
unfoldable pub fetch_keys :
    List (Bytes × Bytes × Bytes) → List (List Field) → Outcome (List (List Field))
fetch_keys [] buffer = returns buffer
fetch_keys ((a, b, c) ∷ rows) buffer = do
  id1 ← stoll a
  id2 ← stoll b
  type ← stoll c
  fetch_keys rows (buffer ++ edge_key id1 id2 type ∷ [])

abbrev is_edges : DataTable → Bool
is_edges edges = true
is_edges objects = false

unfoldable pub status_of : Bool → Status
status_of true = k_ok
status_of false = k_error

module _ (db : Server) where
  open db use {State}

  abbrev run : Statement → State → Status × State
  run stmt s = let (ok, s') = db.query stmt s in (status_of ok, s')

  unfoldable pub batch_insert_objects :
      List (List Field) → List TimestampValue → State → Outcome (Status × State)
  unfolding object_rows status_of
  batch_insert_objects keys tvs s = do
    assert (not (is_empty keys))
    rows ← object_rows keys tvs
    returns (run (insert_rows objects rows) s)

  unfoldable pub batch_insert_edges :
      List (List Field) → List TimestampValue → State → Outcome (Status × State)
  unfolding edge_rows status_of
  batch_insert_edges keys tvs s = do
    assert (not (is_empty keys))
    rows ← edge_rows keys tvs
    returns (run (insert_rows edges rows) s)

  unfoldable pub batch_insert :
      DataTable → List (List Field) → List TimestampValue → State → Outcome (Status × State)
  unfolding batch_insert_objects batch_insert_edges
  batch_insert edges keys tvs s = batch_insert_edges keys tvs s
  batch_insert objects keys tvs s = batch_insert_objects keys tvs s

  unfoldable pub fetched_keys :
      Option (List (Bytes × Bytes × Bytes))
      → List (List Field)
      → State
      → Outcome (Status × List (List Field) × State)
  unfolding fetch_keys
  fetched_keys none buffer s = returns (k_error, buffer, s)
  fetched_keys (some rows) buffer s = do
    buffer' ← fetch_keys rows buffer
    returns (k_ok, buffer', s)

  unfoldable pub batch_read :
      DataTable
      → List Field
      → List Field
      → ℤ
      → List (List Field)
      → State
      → Outcome (Status × List (List Field) × State)
  unfolding batch_read_sql fetched_keys
  batch_read table floor ceiling n buffer s = do
    assert (is_edges table)
    lo ← edge_key_values floor
    hi ← edge_key_values ceiling
    let (rows, s') = db.query_keys (batch_read_sql lo hi n) s
    fetched_keys rows buffer s'
