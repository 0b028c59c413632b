-- ===== src/Crdb/Atomic.antt =====
-- The batched transactions of CockroachDB, all or nothing.
use taobench.Prelude.{List, ◌++◌, Option, some, none, false, ◌≡◌, refl, ◌∙◌, map}
use taobench.Db.{TimestampValue, DbOperation, Status, k_error, Outcome, returns}
use taobench.Sql.{Statement, ResultRow}
use taobench.Pq.Connection.{Connection}
use taobench.Pq.Works.{IsTransactional, HaveKeys, Inside, EndsAtomically, with_work-atomic}
use taobench.Crdb.Driver.{value_of}
use taobench.Crdb.Sorting.{
  SortedKeys, PlacedKeys, sort-SortedKeys, merged_query-returns, read-key, insert-key, update-key,
  delete-key,
}
use taobench.Crdb.Batch.{
  Sorted, nothing, Placed, placed, refused, sort_operations, read_statement, insert_statement,
  update_statement, delete_statement, generate_merged_read_query, generate_merged_insert_query,
  generate_merged_update_query, generate_merged_delete_query, exec_next, run_deletes, run_updates,
  run_inserts, run_sorted, run_placed, execute_transaction_batch,
}

module _ (conn : Connection) (works : IsTransactional conn) where
  open works use {Content, keeps_texts}

  abbrev Step : Type 0
  Step = Option Status × List TimestampValue × conn.State

  abbrev Keeps : Content → Outcome Step → Type 0
  Keeps c r = (q : Step) × (r ≡ returns q) × Inside conn works c q.2

  exec_next-Inside :
      (c : Content) (query : Outcome (List (Option Statement))) (stmts : List (Option Statement))
      (next : List ResultRow → conn.State → Outcome Step) (buffer : List TimestampValue)
      (s : conn.State)
      → query ≡ returns stmts
      → Inside conn works c s
      → ((rows : List ResultRow) (s' : conn.State)
          → Inside conn works c s'
          → Keeps c (next rows s'))
      → Keeps c (exec_next conn query next buffer s)
  unfolding exec_next
  exec_next-Inside c query stmts next buffer s written h rest = by_result (conn.exec stmts s).0 refl
    where
      after : Inside conn works c (conn.exec stmts s).1
      after = ((keeps_texts stmts s h.1).0 ∙ h.0, (keeps_texts stmts s h.1).1)

      by_result :
          (r : Option (List ResultRow))
          → (conn.exec stmts s).0 ≡ r
          → Keeps c (exec_next conn query next buffer s)
      by_result none e =
          ((some k_error, buffer, (conn.exec stmts s).1), rw (written, e) refl, after)
      by_result (some rows) e =
          let (q, done, inside) = rest rows (conn.exec stmts s).1 after in
          (q, rw (written, e) done, inside)

  run_deletes-Inside :
      (c : Content) (b : Sorted) (buffer : List TimestampValue) (s : conn.State)
      → SortedKeys b
      → Inside conn works c s
      → Keeps c (run_deletes conn b buffer s)
  unfolding run_deletes
  run_deletes-Inside c b buffer s k h =
      let (stmts, written) =
        merged_query-returns delete_statement b.deletes
          (λ t op key. delete-key t op.table op.key op.time_and_value op.operation key) k.deletes in
      exec_next-Inside c (generate_merged_delete_query b.deletes) stmts
        (λ _ s'. returns (none, buffer, s')) buffer s written h
        (λ _ s' h'. ((none, buffer, s'), refl, h'))

  run_updates-Inside :
      (c : Content) (b : Sorted) (buffer : List TimestampValue) (s : conn.State)
      → SortedKeys b
      → Inside conn works c s
      → Keeps c (run_updates conn b buffer s)
  unfolding run_updates
  run_updates-Inside c b buffer s k h =
      let (stmts, written) =
        merged_query-returns update_statement b.updates
          (λ t op key. update-key t op.table op.key op.time_and_value op.operation key) k.updates in
      exec_next-Inside c (generate_merged_update_query b.updates) stmts
        (λ _ s'. run_deletes conn b buffer s') buffer s written h
        (λ _ s' h'. run_deletes-Inside c b buffer s' k h')

  run_inserts-Inside :
      (c : Content) (b : Sorted) (buffer : List TimestampValue) (s : conn.State)
      → SortedKeys b
      → Inside conn works c s
      → Keeps c (run_inserts conn b buffer s)
  unfolding run_inserts
  run_inserts-Inside c b buffer s k h =
      let (stmts, written) =
        merged_query-returns insert_statement b.inserts
          (λ t op key. insert-key t op.table op.key op.time_and_value op.operation key) k.inserts in
      exec_next-Inside c (generate_merged_insert_query b.inserts) stmts
        (λ _ s'. run_updates conn b buffer s') buffer s written h
        (λ _ s' h'. run_updates-Inside c b buffer s' k h')

  run_sorted-Inside :
      (c : Content) (b : Sorted) (buffer : List TimestampValue) (s : conn.State)
      → SortedKeys b
      → Inside conn works c s
      → Keeps c (run_sorted conn b buffer s)
  unfolding run_sorted
  run_sorted-Inside c b buffer s k h =
      let (stmts, written) =
        merged_query-returns read_statement b.reads
          (λ t op key. read-key t op.table op.key op.time_and_value op.operation key) k.reads in
      exec_next-Inside c (generate_merged_read_query b.reads) stmts
        (λ rows s'. run_inserts conn b (buffer ++ map value_of rows) s') buffer s written h
        (λ rows s' h'. run_inserts-Inside c b (buffer ++ map value_of rows) s' k h')

  run_placed-Inside :
      (c : Content) (p : Placed) (buffer : List TimestampValue) (s : conn.State)
      → PlacedKeys p
      → Inside conn works c s
      → Keeps c (run_placed conn p buffer s)
  unfolding run_placed
  run_placed-Inside c (placed b) buffer s k h = run_sorted-Inside c b buffer s k h
  run_placed-Inside c (refused status) buffer s k h = ((some status, buffer, s), refl, h)

-- Over a connection whose works behave as PostgreSQL and libpqxx document them, a batched transaction
-- over well-formed keys returns, and the connection is in no work any more. Either the four texts were
-- sent, and their whole effect is committed, with `kOK`, or the commit threw, with `kError`, and all
-- or nothing of the effect is there; or the transaction was not started or ended early, and the
-- committed content is what it was.
pub batch_atomic :
    (conn : Connection) (works : IsTransactional conn) (ops : List DbOperation)
    (buffer : List TimestampValue) (s : conn.State)
    → HaveKeys ops
    → works.in_work s ≡ false
    → EndsAtomically conn works
        (run_placed conn (sort_operations ops nothing) buffer)
        s
        (execute_transaction_batch conn ops buffer s)
unfolding execute_transaction_batch
batch_atomic conn works ops buffer s keys idle =
    with_work-atomic conn works (run_placed conn (sort_operations ops nothing) buffer) buffer s idle
      (λ s' inside.
        run_placed-Inside conn works (works.committed s) (sort_operations ops nothing) buffer s'
          (sort-SortedKeys ops nothing keys
            (record { reads = tt; inserts = tt; updates = tt; deletes = tt }))
          inside)
