-- ===== src/Crdb/LostRows.antt =====
-- The read transactions of CockroachDB: all reads are one text, whose result is that of its last
-- statement.
use taobench.Prelude.{
  List, [], ◌∷◌, ◌++◌, Option, none, some, true, ◌≡◌, refl, map, append_assoc, append-nil, ◌∙◌, ap,
}
use taobench.Db.{
  DataTable, Field, TimestampValue, DbOperation, Operation, Status, k_ok, Outcome, returns,
}
use taobench.Database.{IsKey, AreReads}
use taobench.Sql.{Where, Statement, select, ResultRow}
use taobench.Pq.Connection.{Connection}
use taobench.Pq.Transactions.{with_work, finish}
use taobench.Crdb.Driver.{value_of}
use taobench.Crdb.Sorting.{on_key}
use taobench.Crdb.Batch.{
  Sorted, nothing, placed, place, sort_operations, merged_query, read_statement,
  generate_merged_read_query, exec_next, run_deletes, run_updates, run_inserts, run_sorted,
  run_placed, execute_transaction_batch,
}

abbrev pub text_of : DataTable × Where → Option Statement
text_of (t, w) = some (select t w)

-- What PostgreSQL's library documents of a text of several statements: the result is that of the last
-- one. A text with no statement gives no rows.
pub record AnswersLast (conn : Connection) : Type 0 where
  pub rows : DataTable → Where → conn.State → List ResultRow
  pub last_only :
      (qs : List (DataTable × Where)) (t : DataTable) (w : Where) (s : conn.State)
      → conn.exec (map text_of qs ++ some (select t w) ∷ []) s ≡ (some (rows t w s), s)
  pub empty : (s : conn.State) → conn.exec [] s ≡ (some [], s)

place-read :
    (o : Operation) (op : DbOperation) (b : Sorted)
    → o ≡ Operation.read
    → place o op b ≡ placed (record b { reads = b.reads ++ op ∷ [] })
unfolding place
place-read o op b r = rw r refl

sort-reads :
    (ops : List DbOperation) (b : Sorted)
    → AreReads ops
    → sort_operations ops b ≡ placed (record b { reads = b.reads ++ ops })
unfolding sort_operations
sort-reads [] b ok = rw (append-nil b.reads) refl
sort-reads (op ∷ ops) b ok =
    rw (place-read op.operation op b ok.0.1, sort_operations)
      (sort-reads ops (record b { reads = b.reads ++ op ∷ [] }) ok.1
        ∙ rw (append_assoc b.reads (op ∷ []) ops) refl)

read-select :
    (t here : DataTable) (k : List Field) (tv : TimestampValue) (o : Operation)
    → IsKey t k
    → (w : Where) × (read_statement t (on_key k tv o here) ≡ returns (some (select t w)))
unfolding read_statement
read-select t here k tv o (IsKey.edge a b c) = (_, refl)
read-select t here k tv o (IsKey.object a) = (_, refl)

-- The condition of the statement that an operation's read writes.
merged-reads :
    (ops : List DbOperation) (op : DbOperation) (w : Where)
    → AreReads ops
    → read_statement op.table op ≡ returns (some (select op.table w))
    → (qs : List (DataTable × Where)) × (merged_query read_statement (ops ++ op ∷ [])
        ≡ returns (map text_of qs ++ some (select op.table w) ∷ []))
unfolding merged_query
merged-reads [] op w ok h = ([], rw h refl)
merged-reads (o ∷ ops) op w ok h =
    let (v, one) = read-select o.table o.table o.key o.time_and_value o.operation ok.0.0 in
    let (qs, rest) = merged-reads ops op w ok.1 h in ((o.table, v) ∷ qs, rw (one, rest) refl)

AreReads-append :
    (ops : List DbOperation) (op : DbOperation)
    → AreReads ops
    → IsKey op.table op.key
    → op.operation ≡ Operation.read
    → AreReads (ops ++ op ∷ [])
AreReads-append [] op ok key r = ((key, r), tt)
AreReads-append (o ∷ ops) op ok key r = (ok.0, AreReads-append ops op ok.1 key r)

module _ (conn : Connection) (last : AnswersLast conn) where
  answered :
      (query : Outcome (List (Option Statement))) (stmts : List (Option Statement))
      (next : List ResultRow
        → conn.State
        → Outcome (Option Status × List TimestampValue × conn.State))
      (buffer : List TimestampValue) (s : conn.State) (found : List ResultRow)
      → query ≡ returns stmts
      → conn.exec stmts s ≡ (some found, s)
      → exec_next conn query next buffer s ≡ next found s
  unfolding exec_next
  answered query stmts next buffer s found written result =
      rw (written, ap (λ r. r.0) result, ap (λ r. r.1) result) refl

  run-reads :
      (ops : List DbOperation) (op : DbOperation) (w : Where) (buffer : List TimestampValue)
      (s : conn.State)
      → AreReads ops
      → read_statement op.table op ≡ returns (some (select op.table w))
      → run_sorted conn (record nothing { reads = ops ++ op ∷ [] }) buffer s
        ≡ returns (none, buffer ++ map value_of (last.rows op.table w s), s)
  unfolding run_sorted merged_query
  run-reads ops op w buffer s ok h =
      let (qs, written) = merged-reads ops op w ok h in
      let b : Sorted = record nothing { reads = ops ++ op ∷ [] } in
      let buffer' = buffer ++ map value_of (last.rows op.table w s) in
      answered (generate_merged_read_query b.reads) _
        (λ rows s'. run_inserts conn b (buffer ++ map value_of rows) s') buffer s
        (last.rows op.table w s) written (last.last_only qs op.table w s)
      ∙ answered (returns []) [] (λ _ s'. run_updates conn b buffer' s') buffer' s [] refl
          (last.empty s)
      ∙ answered (returns []) [] (λ _ s'. run_deletes conn b buffer' s') buffer' s [] refl
          (last.empty s)
      ∙ answered (returns []) [] (λ _ s'. returns (none, buffer', s')) buffer' s [] refl
          (last.empty s)

  -- Over a library that gives the result of a text's last statement, a read transaction over well-
  -- formed keys, in a work that starts and commits, succeeds and appends the rows of its last
  -- operation only, however many operations come before it.
  pub earlier_rows_lost :
      (ops : List DbOperation) (op : DbOperation) (w : Where) (buffer : List TimestampValue)
      (s s₁ s₂ : conn.State)
      → AreReads ops
      → IsKey op.table op.key
      → op.operation ≡ Operation.read
      → read_statement op.table op ≡ returns (some (select op.table w))
      → conn.start_work s ≡ (true, s₁)
      → conn.commit s₁ ≡ (true, s₂)
      → execute_transaction_batch conn (ops ++ op ∷ []) buffer s
        ≡ returns (k_ok, buffer ++ map value_of (last.rows op.table w s₁), s₂)
  unfolding execute_transaction_batch run_placed with_work finish
  earlier_rows_lost ops op w buffer s s₁ s₂ ok key r h started done =
      rw
        (
          ap (λ q. q.0) started,
          ap (λ q. q.1) started,
          sort-reads (ops ++ op ∷ []) nothing (AreReads-append ops op ok key r),
          run-reads ops op w buffer s₁ ok h,
          ap (λ q. q.0) done,
          ap (λ q. q.1) done,
        )
        refl
