-- ===== src/MySql/Atomic.antt =====
-- The transactions of MySQL: what is sent, and that a failure leaves the database as it was.
use taobench.Prelude.{
  ℕ, ◌==◌, List, [], ◌∷◌, ◌++◌, Option, none, some, Bool, true, false, if◌then◌else◌, ◌≡◌, refl,
  ◌⊎◌, inl, inr, ℤ,
}
use taobench.Db.{
  DataTable, Field, TimestampValue, DbOperation, Operation, Status, k_ok, k_error,
  k_not_implemented, k_contention_error, returns, EdgeType, first_one, first_three, cast_edge_type,
  edge_key,
}
use taobench.Database.{IsKey, HaveKeys}
use taobench.Sql.{Statement, Server}
use taobench.MySql.Written.{
  Written, statement, nothing, unsupported, write_operation, insert_edge_by, insert_other_sql,
  insert_unique_sql, insert_bidirectional_sql, insert_unique_and_bidirectional_sql, read_edge_sql,
  read_object_sql, delete_edge_sql, delete_object_sql, update_edge_sql, update_object_sql,
  insert_object_sql,
}
use taobench.MySql.Transactions.{
  write_script, after_script, run_script, deadlock, execute_transaction,
}

-- A script as MySQL documents it: one that fails has committed nothing once it is rolled back.
pub record IsTransactional (db : Server) : Type 1 where
  pub Content : Type 0
  pub committed : db.State → Content
  pub rolls_back :
      (stmts : List (Option Statement)) (s : db.State) (code : ℕ)
      → (db.execute_script stmts s).1 ≡ some code
      → (db.rollback (db.execute_script stmts s).2).0 ≡ none
      → committed (db.rollback (db.execute_script stmts s).2).1 ≡ committed s

-- The operations that a transaction supports.
unfoldable pub is_supported : Operation → Bool
is_supported Operation.read = true
is_supported Operation.insert = true
is_supported Operation.update = true
is_supported Operation.delete = true
is_supported _ = false

unfoldable pub all_supported : List DbOperation → Bool
all_supported [] = true
all_supported (op ∷ ops) = if is_supported op.operation then all_supported ops else false

-- What is written for an operation with the flag whether it is supported.
data Fits : Bool → Written → Type 0 where
  some_statement : (stmt : Statement) → Fits true (statement stmt)
  no_statement : Fits true nothing
  not_supported : Fits false unsupported

abbrev IsWritten : Operation → DbOperation → Type 0
IsWritten o op =
    (w : Written) × (write_operation o op.table op ≡ returns w) × Fits (is_supported o) w

insert_edge_by-Fits :
    (e : Option EdgeType) (o : Operation) (t : DataTable) (a b d : ℤ) (tv : TimestampValue)
    → let op : DbOperation = record {
      table = t;
      key = edge_key a b d;
      time_and_value = tv;
      operation = o;
    } in
      (w : Written) × (insert_edge_by e op ≡ returns w) × Fits true w
unfolding insert_edge_by insert_other_sql insert_unique_sql insert_bidirectional_sql
    insert_unique_and_bidirectional_sql first_three
insert_edge_by-Fits none o t a b d tv = (_, refl, no_statement)
insert_edge_by-Fits (some EdgeType.other) o t a b d tv = (_, refl, some_statement _)
insert_edge_by-Fits (some EdgeType.unique) o t a b d tv = (_, refl, some_statement _)
insert_edge_by-Fits (some EdgeType.bidirectional) o t a b d tv = (_, refl, some_statement _)
insert_edge_by-Fits (some EdgeType.unique_and_bidirectional) o t a b d tv =
    (_, refl, some_statement _)

write_operation-Fits :
    (o : Operation) (t : DataTable) (k : List Field) (tv : TimestampValue) (o' : Operation)
    → IsKey t k
    → IsWritten o (record { table = t; key = k; time_and_value = tv; operation = o' })
unfolding write_operation is_supported first_three first_one read_edge_sql read_object_sql
    delete_edge_sql delete_object_sql update_edge_sql update_object_sql insert_object_sql
write_operation-Fits Operation.read t k tv o' (IsKey.edge a b d) = (_, refl, some_statement _)
write_operation-Fits Operation.read t k tv o' (IsKey.object a) = (_, refl, some_statement _)
write_operation-Fits Operation.delete t k tv o' (IsKey.edge a b d) = (_, refl, some_statement _)
write_operation-Fits Operation.delete t k tv o' (IsKey.object a) = (_, refl, some_statement _)
write_operation-Fits Operation.update t k tv o' (IsKey.edge a b d) = (_, refl, some_statement _)
write_operation-Fits Operation.update t k tv o' (IsKey.object a) = (_, refl, some_statement _)
write_operation-Fits Operation.insert t k tv o' (IsKey.object a) = (_, refl, some_statement _)
write_operation-Fits Operation.insert t k tv o' (IsKey.edge a b d) =
    insert_edge_by-Fits (cast_edge_type d) o' _ a b d tv
write_operation-Fits Operation.scan t k tv o' key = (_, refl, not_supported)
write_operation-Fits Operation.read_modify_write t k tv o' key = (_, refl, not_supported)
write_operation-Fits Operation.read_transaction t k tv o' key = (_, refl, not_supported)
write_operation-Fits Operation.write_transaction t k tv o' key = (_, refl, not_supported)
write_operation-Fits Operation.max_op_type t k tv o' key = (_, refl, not_supported)

-- What is written for the operations: a script if all are supported, and none otherwise.
data Script : List DbOperation → Option (List (Option Statement)) → Type 0 where
  script :
      {ops : List DbOperation} (stmts : List (Option Statement))
      → all_supported ops ≡ true
      → Script ops (some stmts)
  no_script : {ops : List DbOperation} → all_supported ops ≡ false → Script ops none

abbrev HasScript : List DbOperation → Type 0
HasScript ops =
    (w : Option (List (Option Statement))) × (write_script ops ≡ returns w) × Script ops w

more :
    (op : DbOperation) (ops : List DbOperation) (b : Bool) (w : Written)
    (ws : Option (List (Option Statement)))
    → is_supported op.operation ≡ b
    → write_operation op.operation op.table op ≡ returns w
    → Fits b w
    → write_script ops ≡ returns ws
    → Script ops ws
    → HasScript (op ∷ ops)
unfolding write_script all_supported
more op ops true w ws is e (some_statement stmt) rest (script stmts all) =
    (some (some stmt ∷ stmts), rw (e, rest) refl, script _ (rw is all))
more op ops true w ws is e no_statement rest (script stmts all) =
    (some (none ∷ stmts), rw (e, rest) refl, script _ (rw is all))
more op ops true w ws is e (some_statement stmt) rest (no_script all) =
    (none, rw (e, rest) refl, no_script (rw is all))
more op ops true w ws is e no_statement rest (no_script all) =
    (none, rw (e, rest) refl, no_script (rw is all))
more op ops false w ws is e not_supported rest all = (none, rw e refl, no_script (rw is refl))

write_script-Script : (ops : List DbOperation) → HaveKeys ops → HasScript ops
unfolding write_script all_supported
write_script-Script [] keys = (_, refl, script [] refl)
write_script-Script (op ∷ ops) (key, keys) =
    let (w, e, fits) =
      write_operation-Fits op.operation op.table op.key op.time_and_value op.operation key in
    let (ws, rest, all) = write_script-Script ops keys in
    more op ops (is_supported op.operation) w ws refl e fits rest all

module _ (db : Server) (transactional : IsTransactional db) where
  open transactional use {committed, rolls_back}

  -- The transaction ends in one of three ways. An operation was not supported: nothing was sent. The
  -- script ran to its end. Or it failed, and where the rollback did not, the content is what it was.
  abbrev pub EndsAtomically :
      List DbOperation
      → List TimestampValue
      → db.State
      → Status
      → List TimestampValue
      → db.State
      → Type 0
  EndsAtomically ops buffer s status buffer' s' =
      ((all_supported ops ≡ false) × (status ≡ k_not_implemented) × (buffer' ≡ buffer) × (s' ≡ s))
      ⊎ ((all_supported ops ≡ true)
          × (stmts : List (Option Statement)) × (write_script ops ≡ returns (some stmts))
          × (buffer' ≡ buffer ++ (db.execute_script stmts s).0)
          × ((((db.execute_script stmts s).1 ≡ none)
                × (status ≡ k_ok)
                × (s' ≡ (db.execute_script stmts s).2))
              ⊎ ((code : ℕ) × ((db.execute_script stmts s).1 ≡ some code)
                  × (status ≡ (if code == deadlock then k_contention_error else k_error))
                  × ((db.rollback (db.execute_script stmts s).2).0 ≡ none
                      → committed s' ≡ committed s))))

  abbrev pub ReturnsAtomically : List DbOperation → List TimestampValue → Bool → db.State → Type 0
  ReturnsAtomically ops buffer read_only s =
      (status : Status) × (buffer' : List TimestampValue) × (s' : db.State) × (execute_transaction
          db ops buffer read_only s
        ≡ returns (status, buffer', s'))
      × EndsAtomically ops buffer s status buffer' s'

  ends :
      (ops : List DbOperation) (stmts : List (Option Statement)) (buffer : List TimestampValue)
      (s : db.State) (failed : Option ℕ)
      → all_supported ops ≡ true
      → write_script ops ≡ returns (some stmts)
      → (db.execute_script stmts s).1 ≡ failed
      → let r = run_script db (some stmts) buffer s in EndsAtomically ops buffer s r.0 r.1 r.2
  unfolding run_script after_script
  ends ops stmts buffer s none all written e =
      rw e (inr (all, stmts, written, refl, inl (e, refl, refl)))
  ends ops stmts buffer s (some code) all written e =
      rw e (inr (all, stmts, written, refl, inr (code, e, refl, rolls_back stmts s code e)))

  -- With a MySQL that keeps nothing of a script that failed and was rolled back, a transaction over
  -- well-formed keys returns. If one of its operations is not supported, the status is
  -- `kNotImplemented`, and neither the server nor the buffer is touched. Otherwise its script was
  -- sent, and the rows that were read stand after those of the buffer: the script ran to its end
  -- and the status is `kOK`, or the committed content is what it was, unless the rollback failed too,
  -- with `kContentionError` for a deadlock and `kError` for any other error.
  pub mysql_transaction_atomic :
      (ops : List DbOperation) (buffer : List TimestampValue) (read_only : Bool) (s : db.State)
      → HaveKeys ops
      → ReturnsAtomically ops buffer read_only s
  unfolding execute_transaction run_script
  mysql_transaction_atomic ops buffer read_only s keys =
      of_script _ (write_script-Script ops keys).1 (write_script-Script ops keys).2
    where
      of_script :
          (w : Option (List (Option Statement)))
          → write_script ops ≡ returns w
          → Script ops w
          → ReturnsAtomically ops buffer read_only s
      of_script w e (no_script all) = (_, _, _, rw e refl, inl (all, refl, refl, refl))
      of_script w e (script stmts all) = (_, _, _, rw e refl, ends ops stmts buffer s _ all e refl)
