-- ===== src/Pq/Inside.antt =====
-- Every prepared statement of a transaction runs inside its work.
use taobench.Prelude.{Bytes, List, [], ◌∷◌, Option, some, none, ◌≡◌, refl, ◌∙◌}
use taobench.Db.{DataTable, Field, TimestampValue, DbOperation, Operation, Status, Outcome, returns}
use taobench.Database.{IsKey}
use taobench.Sql.{Value, ResultRow, Statement}
use taobench.Pq.Connection.{Connection}
use taobench.Pq.Operations.{
  Prepared, Result, do_read, do_update, do_insert, do_delete, exec_prepared, insert_named,
}
use taobench.Pq.Transactions.{Convert, after_read, after_write, run_operation, run_operations}
use taobench.Pq.Works.{IsTransactional, HaveKeys}
use taobench.Pq.Works

module _ (conn : Connection) (works : IsTransactional conn) where
  open works use {Content, keeps}

  abbrev Inside : Content → conn.State → Type 0
  Inside = Works.Inside conn works

  abbrev Keeps : Content → {A : Type 0} → (A → conn.State) → Outcome A → Type 0
  Keeps c {A} state r = Works.Keeps conn works c {A = A} state r

  Inside-exec :
      (c : Content) (stmt : Option Statement) (vs : List Value) (s : conn.State)
      → Inside c s
      → Inside c (exec_prepared conn [] stmt vs s).1
  unfolding exec_prepared
  Inside-exec c none vs s h = h
  Inside-exec c (some stmt) vs s h = ((keeps stmt _ s h.1).0 ∙ h.0, (keeps stmt _ s h.1).1)

  module _ (prepared : Prepared) where
    do_read-Inside :
        (c : Content) (t : DataTable) (k : List Field) (s : conn.State)
        → IsKey t k
        → Inside c s
        → Keeps c (λ (r : Result conn prepared). r.1) (do_read conn prepared t k s)
    unfolding do_read exec_prepared
    do_read-Inside c t k s (IsKey.edge a b d) h = (_, refl, Inside-exec c _ _ s h)
    do_read-Inside c t k s (IsKey.object a) h = (_, refl, Inside-exec c _ _ s h)

    do_update-Inside :
        (c : Content) (t : DataTable) (k : List Field) (tv : TimestampValue) (s : conn.State)
        → IsKey t k
        → Inside c s
        → Keeps c (λ (r : Result conn prepared). r.1) (do_update conn prepared t k tv s)
    unfolding do_update exec_prepared
    do_update-Inside c t k tv s (IsKey.edge a b d) h = (_, refl, Inside-exec c _ _ s h)
    do_update-Inside c t k tv s (IsKey.object a) h = (_, refl, Inside-exec c _ _ s h)

    do_delete-Inside :
        (c : Content) (t : DataTable) (k : List Field) (tv : TimestampValue) (s : conn.State)
        → IsKey t k
        → Inside c s
        → Keeps c (λ (r : Result conn prepared). r.1) (do_delete conn prepared t k tv s)
    unfolding do_delete exec_prepared
    do_delete-Inside c t k tv s (IsKey.edge a b d) h = (_, refl, Inside-exec c _ _ s h)
    do_delete-Inside c t k tv s (IsKey.object a) h = (_, refl, Inside-exec c _ _ s h)

    insert_named-Inside :
        (c : Content) (name : Option Bytes) (vs : List Value) (s : conn.State)
        → Inside c s
        → Inside c (insert_named conn prepared name vs s).1
    unfolding insert_named exec_prepared
    insert_named-Inside c none vs s h = h
    insert_named-Inside c (some name) vs s h = Inside-exec c _ vs s h

    do_insert-Inside :
        (c : Content) (t : DataTable) (k : List Field) (tv : TimestampValue) (s : conn.State)
        → IsKey t k
        → Inside c s
        → Keeps c (λ (r : Result conn prepared). r.1) (do_insert conn prepared t k tv s)
    unfolding do_insert exec_prepared
    do_insert-Inside c t k tv s (IsKey.edge a b d) h = (_, refl, insert_named-Inside c _ _ s h)
    do_insert-Inside c t k tv s (IsKey.object a) h = (_, refl, Inside-exec c _ _ s h)

    module _ (convert : Convert) where
      abbrev pub Progress : Type 0
      Progress = Option Status × List TimestampValue × conn.State

      after_read-state :
          (rows : Option (List ResultRow)) (buffer : List TimestampValue) (s : conn.State)
          → (after_read conn prepared convert rows buffer s).2 ≡ s
      unfolding after_read
      after_read-state none buffer s = refl
      after_read-state (some rows) buffer s = refl

      after_write-state :
          (rows : Option (List ResultRow)) (buffer : List TimestampValue) (s : conn.State)
          → (after_write conn prepared convert rows buffer s).2 ≡ s
      unfolding after_write
      after_write-state none buffer s = refl
      after_write-state (some rows) buffer s = refl

      run_operation-Inside :
          (c : Content) (o : Operation) (op : DbOperation) (buffer : List TimestampValue)
          (s : conn.State)
          → IsKey op.table op.key
          → Inside c s
          → Keeps c (λ (r : Progress). r.2) (run_operation conn prepared convert o op buffer s)
      unfolding run_operation
      run_operation-Inside c Operation.read op buffer s key h =
          let (r, done, inside) = do_read-Inside c op.table op.key s key h in
          (
            after_read conn prepared convert r.0 buffer r.1,
            rw done refl,
            rw (after_read-state r.0 buffer r.1) inside,
          )
      run_operation-Inside c Operation.insert op buffer s key h =
          let (r, done, inside) = do_insert-Inside c op.table op.key op.time_and_value s key h in
          (
            after_write conn prepared convert r.0 buffer r.1,
            rw done refl,
            rw (after_write-state r.0 buffer r.1) inside,
          )
      run_operation-Inside c Operation.update op buffer s key h =
          let (r, done, inside) = do_update-Inside c op.table op.key op.time_and_value s key h in
          (
            after_write conn prepared convert r.0 buffer r.1,
            rw done refl,
            rw (after_write-state r.0 buffer r.1) inside,
          )
      run_operation-Inside c Operation.delete op buffer s key h =
          let (r, done, inside) = do_delete-Inside c op.table op.key op.time_and_value s key h in
          (
            after_write conn prepared convert r.0 buffer r.1,
            rw done refl,
            rw (after_write-state r.0 buffer r.1) inside,
          )
      run_operation-Inside c Operation.scan op buffer s key h = (_, refl, h)
      run_operation-Inside c _ op buffer s key h = (_, refl, h)

      run_operations-cons :
          (c : Content) (op : DbOperation) (ops : List DbOperation) (buffer : List TimestampValue)
          (s : conn.State) (stop : Option Status) (buffer' : List TimestampValue) (s' : conn.State)
          → run_operation conn prepared convert op.operation op buffer s
            ≡ returns (stop, buffer', s')
          → Inside c s'
          → Keeps c (λ (r : Progress). r.2) (run_operations conn prepared convert ops buffer' s')
          → Keeps c
              (λ (r : Progress). r.2)
              (run_operations conn prepared convert (op ∷ ops) buffer s)
      unfolding run_operations
      run_operations-cons c op ops buffer s none buffer' s' done inside (q, rest, inside') =
          (q, rw done rest, inside')
      run_operations-cons c op ops buffer s (some status) buffer' s' done inside rest =
          ((some status, buffer', s'), rw done refl, inside)

      pub run_operations-Inside :
          (c : Content) (ops : List DbOperation) (buffer : List TimestampValue) (s : conn.State)
          → HaveKeys ops
          → Inside c s
          → Keeps c (λ (r : Progress). r.2) (run_operations conn prepared convert ops buffer s)
      unfolding run_operations
      run_operations-Inside c [] buffer s keys h = (_, refl, h)
      run_operations-Inside c (op ∷ ops) buffer s keys h =
          let (r, done, inside) = run_operation-Inside c op.operation op buffer s keys.0 h in
          run_operations-cons c op ops buffer s r.0 r.1 r.2 done inside
            (run_operations-Inside c ops r.1 r.2 keys.1 inside)
