-- ===== src/Crdb/Sorting.antt =====
-- The operations that a batched transaction sorts keep their keys, and each of its texts is written.
use taobench.Prelude.{List, [], ◌∷◌, ◌++◌, Option, ◌≡◌, refl}
use taobench.Db.{DataTable, Field, TimestampValue, DbOperation, Operation, Outcome, returns}
use taobench.Database.{IsKey}
use taobench.Sql.{Statement}
use taobench.Pq.Works.{HaveKeys}
use taobench.Crdb.Batch.{
  Sorted, Placed, placed, refused, place, sort_operations, merged_query, read_statement,
  insert_statement, update_statement, delete_statement,
}

-- Every operation of the sorted lists has a well-formed key.
pub record SortedKeys (b : Sorted) : Type 0 where
  pub reads : HaveKeys b.reads
  pub inserts : HaveKeys b.inserts
  pub updates : HaveKeys b.updates
  pub deletes : HaveKeys b.deletes

HaveKeys-snoc :
    (ops : List DbOperation) (op : DbOperation)
    → HaveKeys ops
    → IsKey op.table op.key
    → HaveKeys (ops ++ op ∷ [])
HaveKeys-snoc [] op keys key = (key, tt)
HaveKeys-snoc (o ∷ ops) op keys key = (keys.0, HaveKeys-snoc ops op keys.1 key)

abbrev pub PlacedKeys : Placed → Type 0
PlacedKeys (placed b) = SortedKeys b
PlacedKeys (refused status) = Unit

place-SortedKeys :
    (o : Operation) (op : DbOperation) (b : Sorted)
    → IsKey op.table op.key
    → SortedKeys b
    → PlacedKeys (place o op b)
unfolding place
place-SortedKeys Operation.read op b key k = record {
  reads = HaveKeys-snoc b.reads op k.reads key;
  inserts = k.inserts;
  updates = k.updates;
  deletes = k.deletes;
}
place-SortedKeys Operation.insert op b key k = record {
  reads = k.reads;
  inserts = HaveKeys-snoc b.inserts op k.inserts key;
  updates = k.updates;
  deletes = k.deletes;
}
place-SortedKeys Operation.update op b key k = record {
  reads = k.reads;
  inserts = k.inserts;
  updates = HaveKeys-snoc b.updates op k.updates key;
  deletes = k.deletes;
}
place-SortedKeys Operation.delete op b key k = record {
  reads = k.reads;
  inserts = k.inserts;
  updates = k.updates;
  deletes = HaveKeys-snoc b.deletes op k.deletes key;
}
place-SortedKeys Operation.scan op b key k = tt
place-SortedKeys _ op b key k = tt

sort-SortedKeys-cons :
    (ops : List DbOperation) (p : Placed)
    → PlacedKeys p
    → ((b : Sorted) → SortedKeys b → PlacedKeys (sort_operations ops b))
    → PlacedKeys (elim p [ placed b' ↦ sort_operations ops b' | refused status ↦ refused status ])
sort-SortedKeys-cons ops (placed b) k rest = rest b k
sort-SortedKeys-cons ops (refused status) k rest = tt

pub sort-SortedKeys :
    (ops : List DbOperation) (b : Sorted)
    → HaveKeys ops
    → SortedKeys b
    → PlacedKeys (sort_operations ops b)
unfolding sort_operations
sort-SortedKeys [] b keys k = k
sort-SortedKeys (op ∷ ops) b keys k =
    sort-SortedKeys-cons ops (place op.operation op b) (place-SortedKeys op.operation op b keys.0 k)
      (λ b' k'. sort-SortedKeys ops b' keys.1 k')

-- A query is written for every list of operations with well-formed keys.
abbrev pub IsWritten : (DataTable → DbOperation → Outcome (Option Statement)) → Type 0
IsWritten statement =
    (t : DataTable) (op : DbOperation)
    → IsKey t op.key
    → (stmt : Option Statement) × (statement t op ≡ returns stmt)

pub merged_query-returns :
    (statement : DataTable → DbOperation → Outcome (Option Statement)) (ops : List DbOperation)
    → IsWritten statement
    → HaveKeys ops
    → (stmts : List (Option Statement)) × (merged_query statement ops ≡ returns stmts)
unfolding merged_query
merged_query-returns statement [] written keys = ([], refl)
merged_query-returns statement (op ∷ ops) written keys =
    let (stmt, one) = written op.table op keys.0 in
    let (stmts, rest) = merged_query-returns statement ops written keys.1 in
    (stmt ∷ stmts, rw (one, rest) refl)

abbrev pub on_key : List Field → TimestampValue → Operation → DataTable → DbOperation
on_key k tv o here = record { table = here; key = k; time_and_value = tv; operation = o }

pub read-key :
    (t here : DataTable) (k : List Field) (tv : TimestampValue) (o : Operation)
    → IsKey t k
    → (stmt : Option Statement) × (read_statement t (on_key k tv o here) ≡ returns stmt)
unfolding read_statement
read-key t here k tv o (IsKey.edge a b c) = (_, refl)
read-key t here k tv o (IsKey.object a) = (_, refl)

pub insert-key :
    (t here : DataTable) (k : List Field) (tv : TimestampValue) (o : Operation)
    → IsKey t k
    → (stmt : Option Statement) × (insert_statement t (on_key k tv o here) ≡ returns stmt)
unfolding insert_statement
insert-key t here k tv o (IsKey.edge a b c) = (_, refl)
insert-key t here k tv o (IsKey.object a) = (_, refl)

pub update-key :
    (t here : DataTable) (k : List Field) (tv : TimestampValue) (o : Operation)
    → IsKey t k
    → (stmt : Option Statement) × (update_statement t (on_key k tv o here) ≡ returns stmt)
unfolding update_statement
update-key t here k tv o (IsKey.edge a b c) = (_, refl)
update-key t here k tv o (IsKey.object a) = (_, refl)

pub delete-key :
    (t here : DataTable) (k : List Field) (tv : TimestampValue) (o : Operation)
    → IsKey t k
    → (stmt : Option Statement) × (delete_statement t (on_key k tv o here) ≡ returns stmt)
unfolding delete_statement
delete-key t here k tv o (IsKey.edge a b c) = (_, refl)
delete-key t here k tv o (IsKey.object a) = (_, refl)
