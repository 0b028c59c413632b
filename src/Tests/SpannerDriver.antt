-- ===== src/Tests/SpannerDriver.antt =====
-- The theorems about the driver for Spanner at concrete inputs.
use taobench.Prelude.{
  ℤ, pos, Bytes, codes, List, [], ◌∷◌, ◌++◌, Option, some, true, ◌≡◌, refl, arith,
}
use taobench.Db.{
  edges, objects, TimestampValue, DbOperation, Operation, k_ok, returns, faults, Fault, Edge,
  EdgeType, EdgeRow, row_of, object_key, type_value,
}
use taobench.Db.Incompatible.{key_of}
use taobench.Database.{IsKey}
use taobench.Keys.{shard_unit}
use taobench.Sql.Guard.{IsConsistent}
use taobench.Loader.{Loader, ShardMap}
use taobench.Loader
use taobench.Loader.Order.{key_lt, select}
use taobench.Loader.BatchRead.{edges_of, of_shard}
use taobench.Spanner.Inserts.{spanner_insert-IsConsistent}
use taobench.Spanner.Driver
use taobench.Spanner.Transactions
use taobench.Spanner.ReadTransactions.{read_transaction_by_tables}
use taobench.Spanner.RepeatedIds.{edge_read, repeated_id_faults}
use taobench.Spanner.Pages.{spanner_database, spanner_batch_read}
use taobench.Tests.Tables.{zero_of, four_edges}
use taobench.Tests.Clients.{
  spanner_edges, spanner_edges_lem, spanner_reads, spanner_scans, spanner_scans_lem,
}

-- A unique edge that is to be inserted, and the row of the edge from one of its nodes.
abbrev both_ways : Edge
both_ways = record { primary_key = pos 1; remote_key = pos 2; type = EdgeType.bidirectional }

abbrev reverse_row : EdgeRow
reverse_row =
    row_of (record { primary_key = pos 2; remote_key = pos 1; type = EdgeType.unique }) (pos 5)
      (codes "x")

abbrev new_value : TimestampValue
new_value = record { timestamp = pos 9; value = codes "new" }

spanner_insert-IsConsistent_example :
    (result : Option Bytes) × (s' : List EdgeRow) × (Driver.insert spanner_edges edges
        (key_of both_ways)
        new_value
        (reverse_row ∷ [])
      ≡ returns (Driver.commit_status result, s'))
    × IsConsistent s'
unfolding spanner_edges_lem
spanner_insert-IsConsistent_example =
    spanner_insert-IsConsistent spanner_edges zero_of spanner_edges_lem both_ways new_value
      (reverse_row ∷ [])
      ((record { primary_key = pos 2; remote_key = pos 1; type = EdgeType.unique }, refl, refl), tt)

abbrev object_read : DbOperation
object_read = record {
  table = objects;
  key = object_key (pos 4);
  time_and_value = new_value;
  operation = Operation.read;
}

-- The row of the edge comes first, though the object is read first.
read_transaction_by_tables_example :
    Transactions.execute_transaction spanner_edges
      (object_read ∷ edge_read (pos 2) (pos 1) (pos 0) ∷ [])
      []
      true
      (reverse_row ∷ [])
    ≡ returns (k_ok, record { timestamp = pos 5; value = codes "x" } ∷ [], reverse_row ∷ [])
unfolding spanner_reads type_value
read_transaction_by_tables_example =
    read_transaction_by_tables spanner_edges spanner_reads object_read
      (edge_read (pos 2) (pos 1) (pos 0) ∷ []) [] (reverse_row ∷ [])
      ((IsKey.object (pos 4), refl), ((IsKey.edge (pos 2) (pos 1) (pos 0), refl), tt))
      ((refl, tt), (refl, tt))

repeated_id_faults_example :
    Transactions.execute_transaction spanner_edges
      (edge_read (pos 2) (pos 1) (pos 0) ∷ edge_read (pos 2) (pos 3) (pos 2) ∷ object_read ∷ [])
      []
      true
      (reverse_row ∷ [])
    ≡ faults Fault.assertion
repeated_id_faults_example =
    repeated_id_faults spanner_edges (pos 2) (pos 1) (pos 3) (pos 0) (pos 2) (object_read ∷ []) []
      (reverse_row ∷ []) (λ vals. refl) ((IsKey.object (pos 4), refl), tt)

abbrev first_loader : Loader
first_loader = record {
  shard_to_edges = [];
  start_key = pos 0;
  end_key = pos shard_unit;
  object_key_buffer = [];
  object_value_buffer = [];
  edge_key_buffer = [];
  edge_value_buffer = [];
}

spanner_batch_read_example :
    (m : ShardMap) × (s' : spanner_scans.State) × (Loader.batch_read
        (spanner_database spanner_scans)
        5
        2
        first_loader
        tt
      ≡ returns (some (0, record first_loader { shard_to_edges = m }, s')))
    × ((shard : ℤ)
        → edges_of shard m
          ≡ edges_of shard []
            ++ of_shard shard
                (select (pos 0, pos 0, pos 0) (pos shard_unit, pos 0, pos 0) four_edges))
unfolding spanner_scans_lem select key_lt
spanner_batch_read_example =
    spanner_batch_read spanner_scans_lem 5 2 first_loader tt (omega arith) (omega arith)
