-- ===== src/Crdb/Batch.antt =====
-- `CrdbDB::ExecuteTransactionBatch`: the operations are sorted by their kinds, and each kind is sent as
-- one text of several statements. `quote` makes a value a literal.
use taobench.Prelude.{ℤ, List, [], ◌∷◌, ◌++◌, Option, some, none, map}
use taobench.Db.{
  DataTable, edges, objects, TimestampValue, DbOperation, Operation, Status, k_error, k_not_found,
  k_not_implemented, Outcome, returns, ◌>>=◌, EdgeType, cast_edge_type, first_one, first_three,
}
use taobench.Sql.{
  Statement, lit, quoted, Column, eq, lt, and, select, insert_values, insert_unless, update, delete,
  ResultRow,
}
use taobench.Pq.Connection.{Connection}
use taobench.Pq.Conditions.{triple_is, insert_condition}
use taobench.Pq.Transactions.{with_work}
use taobench.Crdb.Driver.{value_of}

pub record Sorted : Type 0 where
  pub reads : List DbOperation
  pub inserts : List DbOperation
  pub updates : List DbOperation
  pub deletes : List DbOperation

abbrev pub nothing : Sorted
nothing = record { reads = []; inserts = []; updates = []; deletes = [] }

-- The switch of the loop: `push_back` to a list, or the status of an early return.
pub data Placed : Type 0 where
  placed : Sorted → Placed
  refused : Status → Placed

unfoldable pub place : Operation → DbOperation → Sorted → Placed
place Operation.read op b = placed (record b { reads = b.reads ++ op ∷ [] })
place Operation.insert op b = placed (record b { inserts = b.inserts ++ op ∷ [] })
place Operation.update op b = placed (record b { updates = b.updates ++ op ∷ [] })
place Operation.delete op b = placed (record b { deletes = b.deletes ++ op ∷ [] })
place Operation.scan op b = refused k_not_implemented
place Operation.read_modify_write op b = refused k_not_implemented
place Operation.max_op_type op b = refused k_not_implemented
place _ op b = refused k_not_found

unfoldable pub sort_operations : List DbOperation → Sorted → Placed
unfolding place
sort_operations [] b = placed b
sort_operations (op ∷ ops) b = elim (place op.operation op b) [
  | placed b' ↦ sort_operations ops b'
  | refused status ↦ refused status
]

-- The text of a statement; `none` is a text that is no statement.
unfoldable pub read_statement : DataTable → DbOperation → Outcome (Option Statement)
unfolding first_one first_three
read_statement objects op = do
  id ← first_one op.key
  returns (some (select objects (eq Column.id (lit id))))
read_statement edges op = do
  (id1, id2, type) ← first_three op.key
  returns (some (select edges (triple_is (lit id1) (lit id2) (lit type))))

-- For a value that is no edge type the text ends after NOT EXISTS.
unfoldable pub insert_edge_statement :
    ℤ → ℤ → ℤ → TimestampValue → Option EdgeType → Option Statement
unfolding insert_condition
insert_edge_statement id1 id2 type tv none = none
insert_edge_statement id1 id2 type tv (some t) = some (
    insert_unless (lit id1 ∷ lit id2 ∷ lit type ∷ lit tv.timestamp ∷ quoted tv.value ∷ [])
      (insert_condition (lit id1) (lit id2) t))

unfoldable pub insert_statement : DataTable → DbOperation → Outcome (Option Statement)
unfolding first_one first_three insert_edge_statement
insert_statement objects op = do
  id ← first_one op.key
  let tv = op.time_and_value
  returns (some (insert_values objects (lit id ∷ lit tv.timestamp ∷ quoted tv.value ∷ [])))
insert_statement edges op = do
  (id1, id2, type) ← first_three op.key
  returns (insert_edge_statement id1 id2 type op.time_and_value (cast_edge_type type))

unfoldable pub update_statement : DataTable → DbOperation → Outcome (Option Statement)
unfolding first_one first_three
update_statement objects op = do
  id ← first_one op.key
  let tv = op.time_and_value
  returns (
      some (
        update objects (lit tv.timestamp) (quoted tv.value)
          (and (eq Column.id (lit id)) (lt Column.timestamp (lit tv.timestamp)))))
update_statement edges op = do
  (id1, id2, type) ← first_three op.key
  let tv = op.time_and_value
  returns (
      some (
        update edges (lit tv.timestamp) (quoted tv.value) (
          and (triple_is (lit id1) (lit id2) (lit type)) (lt Column.timestamp (lit tv.timestamp)))))

unfoldable pub delete_statement : DataTable → DbOperation → Outcome (Option Statement)
unfolding first_one first_three
delete_statement objects op = do
  id ← first_one op.key
  let tv = op.time_and_value
  returns
      (some (delete objects (and (eq Column.id (lit id)) (lt Column.timestamp (lit tv.timestamp)))))
delete_statement edges op = do
  (id1, id2, type) ← first_three op.key
  let tv = op.time_and_value
  returns (
      some (
        delete edges (
          and (triple_is (lit id1) (lit id2) (lit type)) (lt Column.timestamp (lit tv.timestamp)))))

-- The loop of a `GenerateMerged…Query`.
unfoldable pub merged_query :
    (DataTable → DbOperation → Outcome (Option Statement))
    → List DbOperation
    → Outcome (List (Option Statement))
merged_query statement [] = returns []
merged_query statement (op ∷ ops) = do
  stmt ← statement op.table op
  rest ← merged_query statement ops
  returns (stmt ∷ rest)

unfoldable pub generate_merged_read_query : List DbOperation → Outcome (List (Option Statement))
unfolding merged_query read_statement
generate_merged_read_query ops = merged_query read_statement ops

unfoldable pub generate_merged_insert_query : List DbOperation → Outcome (List (Option Statement))
unfolding merged_query insert_statement
generate_merged_insert_query ops = merged_query insert_statement ops

unfoldable pub generate_merged_update_query : List DbOperation → Outcome (List (Option Statement))
unfolding merged_query update_statement
generate_merged_update_query ops = merged_query update_statement ops

unfoldable pub generate_merged_delete_query : List DbOperation → Outcome (List (Option Statement))
unfolding merged_query delete_statement
generate_merged_delete_query ops = merged_query delete_statement ops

module _ (conn : Connection) where
  open conn use {State}

  -- The four texts in turn; an exception ends the transaction.
  unfoldable pub exec_next :
      Outcome (List (Option Statement))
      → (List ResultRow → State → Outcome (Option Status × List TimestampValue × State))
      → List TimestampValue
      → State
      → Outcome (Option Status × List TimestampValue × State)
  exec_next query next buffer s = do
    stmts ← query
    let (result, s') = conn.exec stmts s
    elim result [ none ↦ returns (some k_error, buffer, s') | some rows ↦ next rows s' ]

  unfoldable pub run_deletes :
      Sorted → List TimestampValue → State → Outcome (Option Status × List TimestampValue × State)
  unfolding exec_next generate_merged_delete_query
  run_deletes b buffer s =
      exec_next (generate_merged_delete_query b.deletes) (λ _ s'. returns (none, buffer, s')) buffer
        s

  unfoldable pub run_updates :
      Sorted → List TimestampValue → State → Outcome (Option Status × List TimestampValue × State)
  unfolding exec_next generate_merged_update_query run_deletes
  run_updates b buffer s =
      exec_next (generate_merged_update_query b.updates) (λ _ s'. run_deletes b buffer s') buffer s

  unfoldable pub run_inserts :
      Sorted → List TimestampValue → State → Outcome (Option Status × List TimestampValue × State)
  unfolding exec_next generate_merged_insert_query run_updates
  run_inserts b buffer s =
      exec_next (generate_merged_insert_query b.inserts) (λ _ s'. run_updates b buffer s') buffer s

  unfoldable pub run_sorted :
      Sorted → List TimestampValue → State → Outcome (Option Status × List TimestampValue × State)
  unfolding exec_next generate_merged_read_query value_of run_inserts
  run_sorted b buffer s =
      exec_next (generate_merged_read_query b.reads)
        (λ rows s'. run_inserts b (buffer ++ map value_of rows) s') buffer s

  unfoldable pub run_placed :
      Placed → List TimestampValue → State → Outcome (Option Status × List TimestampValue × State)
  unfolding run_sorted
  run_placed (refused status) buffer s = returns (some status, buffer, s)
  run_placed (placed b) buffer s = run_sorted b buffer s

  unfoldable pub execute_transaction_batch :
      List DbOperation
      → List TimestampValue
      → State
      → Outcome (Status × List TimestampValue × State)
  unfolding run_placed sort_operations with_work
  execute_transaction_batch ops buffer s =
      with_work conn (run_placed (sort_operations ops nothing) buffer) buffer s
