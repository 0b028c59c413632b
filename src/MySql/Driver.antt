-- ===== src/MySql/Driver.antt =====
-- The methods of `MySqlDB` for one operation: `Read`, `Update`, `Insert`, `Delete` and `Execute`. A
-- method takes the connection's state and returns the new one.
use taobench.Prelude.{ℤ, Bytes, ◌==◌, if◌then◌else◌, List, [], ◌∷◌, ◌++◌, Option, some, none}
use taobench.Db.{
  DataTable, edges, objects, Field, TimestampValue, DbOperation, Operation, Status, k_ok, k_error,
  k_not_found, k_not_implemented, Outcome, returns, faults, Fault, ◌>>=◌, edge_key_values,
  object_key_value, EdgeType, cast_edge_type, edge_type_to_string,
}
use taobench.Sql.{Statement, Value, int, text, Server, rows, error, ResultRow}
use taobench.MySql.Statements.{
  bind_from, build_read_object, build_read_edge, build_insert_object, build_insert_other,
  build_insert_unique, build_insert_bidirectional, build_insert_unique_and_bidirectional,
  build_delete_object, build_delete_edge, build_update_object, build_update_edge,
}

-- The parameters after the five inserted values, by the kind of the edge.
unfoldable pub insert_bindings : ℤ → ℤ → EdgeType → List Value
insert_bindings id1 id2 EdgeType.other =
    int id1 ∷ int id1 ∷ int id1 ∷ int id2 ∷ int id2 ∷ int id1 ∷ []
insert_bindings id1 id2 EdgeType.unique = int id1 ∷ int id2 ∷ int id1 ∷ []
insert_bindings id1 id2 EdgeType.bidirectional =
    int id1 ∷ int id1 ∷ int id1 ∷ int id2 ∷ int id2 ∷ int id1 ∷ int id1 ∷ int id2 ∷ []
insert_bindings id1 id2 EdgeType.unique_and_bidirectional =
    int id1 ∷ int id2 ∷ int id1 ∷ int id2 ∷ int id1 ∷ []

unfoldable pub insert_statement : EdgeType → Statement
insert_statement EdgeType.other = build_insert_other
insert_statement EdgeType.unique = build_insert_unique
insert_statement EdgeType.bidirectional = build_insert_bidirectional
insert_statement EdgeType.unique_and_bidirectional = build_insert_unique_and_bidirectional

-- `EdgeTypeToString` on a value that may be no enumerator, which takes its default branch.
unfoldable pub type_text : Option EdgeType → Bytes
type_text (some t) = edge_type_to_string t
type_text none = edge_type_to_string EdgeType.other

-- What `Delete` binds on the edges table. The type goes in as its name, a text.
unfoldable pub delete_edge_bindings : ℤ → ℤ → ℤ → ℤ → List Value
unfolding type_text
delete_edge_bindings time id1 id2 type =
    int time ∷ int id1 ∷ int id2 ∷ text (type_text (cast_edge_type type)) ∷ []

-- `value.c_str()`, whose end is the first byte that is 0.
unfoldable pub c_str : Bytes → Bytes
c_str [] = []
c_str (c ∷ s) = let rest = c_str s in if c == 0 then [] else c ∷ rest

module _ (db : Server) where
  open db use {State, execute}

  -- `execute` in a `try`, whose handler returns `kError`.
  unfoldable pub run : Statement → List Value → State → Outcome (Status × State)
  run stmt values s =
      let (reply, s') = execute stmt (bind_from 0 values) s in
      elim reply [ rows _ ↦ returns (k_ok, s') | error _ ↦ returns (k_error, s') ]

  -- `fetch` and the tests on the two nullable results.
  unfoldable pub fetched : List ResultRow → List TimestampValue → Status × List TimestampValue
  fetched ((some t, some v) ∷ rest) buffer =
      (k_ok, buffer ++ record { timestamp = t; value = v } ∷ [])
  fetched _ buffer = (k_not_found, buffer)

  unfoldable pub run_read :
      Statement
      → List Value
      → List TimestampValue
      → State
      → Outcome (Status × List TimestampValue × State)
  unfolding fetched
  run_read stmt values buffer s =
      let (reply, s') = execute stmt (bind_from 0 values) s in
      elim reply [
        | rows found ↦
            (let (status, buffer') = fetched found buffer in returns (status, buffer', s'))
        | error _ ↦ returns (k_error, buffer, s')
      ]

  unfoldable pub read :
      DataTable
      → List Field
      → List TimestampValue
      → State
      → Outcome (Status × List TimestampValue × State)
  read edges key buffer s = do
    (id1, id2, type) ← edge_key_values key
    run_read build_read_edge (int id1 ∷ int id2 ∷ int type ∷ []) buffer s
  read objects key buffer s = do
    id ← object_key_value key
    run_read build_read_object (int id ∷ []) buffer s

  unfoldable pub update : DataTable → List Field → TimestampValue → State → Outcome (Status × State)
  unfolding c_str
  update edges key v s = do
    (id1, id2, type) ← edge_key_values key
    run build_update_edge
        (int v.timestamp
          ∷ text (c_str v.value)
          ∷ int v.timestamp
          ∷ int id1
          ∷ int id2
          ∷ int type
          ∷ [])
        s
  update objects key v s = do
    id ← object_key_value key
    run build_update_object (int v.timestamp ∷ text (c_str v.value) ∷ int v.timestamp ∷ int id ∷ [])
        s

  unfoldable pub insert_edge :
      ℤ → ℤ → ℤ → Option EdgeType → TimestampValue → State → Outcome (Status × State)
  unfolding insert_statement insert_bindings c_str
  insert_edge id1 id2 type (some t) v s =
      run (insert_statement t)
        (int id1
          ∷ int id2
          ∷ int type
          ∷ int v.timestamp
          ∷ text (c_str v.value)
          ∷ insert_bindings id1 id2 t)
        s
  insert_edge id1 id2 type none v s = faults Fault.invalid_argument

  unfoldable pub insert : DataTable → List Field → TimestampValue → State → Outcome (Status × State)
  unfolding insert_edge c_str
  insert objects key v s = do
    id ← object_key_value key
    run build_insert_object (int id ∷ int v.timestamp ∷ text (c_str v.value) ∷ []) s
  insert edges key v s = do
    (id1, id2, type) ← edge_key_values key
    insert_edge id1 id2 type (cast_edge_type type) v s

  unfoldable pub delete : DataTable → List Field → TimestampValue → State → Outcome (Status × State)
  unfolding delete_edge_bindings
  delete edges key v s = do
    (id1, id2, type) ← edge_key_values key
    run build_delete_edge (delete_edge_bindings v.timestamp id1 id2 type) s
  delete objects key v s = do
    id ← object_key_value key
    run build_delete_object (int v.timestamp ∷ int id ∷ []) s

  -- `Execute` reports every failure of the method that it calls as `kError`.
  abbrev or_error : Status → Status
  or_error k_ok = k_ok
  or_error _ = k_error

  abbrev written :
      List TimestampValue
      → Outcome (Status × State)
      → Outcome (Status × List TimestampValue × State)
  written buffer r = do (status, s') ← r; returns (or_error status, buffer, s')

  unfoldable pub execute_by :
      Operation
      → DbOperation
      → List TimestampValue
      → State
      → Outcome (Status × List TimestampValue × State)
  unfolding run run_read read update insert delete
  execute_by Operation.read op buffer s = do
    (status, buffer', s') ← read op.table op.key buffer s
    returns (or_error status, buffer', s')
  execute_by Operation.delete op buffer s =
      written buffer (delete op.table op.key op.time_and_value s)
  execute_by Operation.update op buffer s =
      written buffer (update op.table op.key op.time_and_value s)
  execute_by Operation.insert op buffer s =
      written buffer (insert op.table op.key op.time_and_value s)
  execute_by _ op buffer s = returns (k_not_implemented, buffer, s)

  unfoldable pub execute_operation :
      DbOperation → List TimestampValue → State → Outcome (Status × List TimestampValue × State)
  unfolding execute_by
  execute_operation op buffer s = execute_by op.operation op buffer s
