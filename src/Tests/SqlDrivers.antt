-- ===== src/Tests/SqlDrivers.antt =====
-- The theorems about the drivers for MySQL, CockroachDB and YugabyteDB at concrete inputs.
use taobench.Prelude.{pos, codes, List, [], ◌∷◌, true, false, ◌≡◌, refl}
use taobench.Db.{
  edges, objects, TimestampValue, DbOperation, Operation, k_ok, returns, Edge, EdgeType, EdgeRow,
  row_of, object_key,
}
use taobench.Db.Incompatible.{key_of}
use taobench.Database.{IsKey}
use taobench.Sql.{eq, lit, Column}
use taobench.Pq.Works
use taobench.Pq.Transactions.{run_operations}
use taobench.Crdb.Driver
use taobench.Crdb.Batch
use taobench.Crdb.Atomic.{batch_atomic}
use taobench.Crdb.LostRows.{earlier_rows_lost}
use taobench.Yugabyte.Statements as YugabyteStatements
use taobench.Yugabyte.Driver as YugabyteDriver
use taobench.Yugabyte.Atomic.{transaction_atomic}
use taobench.MySql.Guards as MySqlGuards
use taobench.MySql.Deletes.{is_due}
use taobench.MySql.WrittenEdges.{written_finds, written_edges, has_key}
use taobench.Tests.Tables.{zero_of}
use taobench.Tests.Connections.{counting, counting_works, counting_last}

abbrev both_ways : Edge
both_ways = record { primary_key = pos 1; remote_key = pos 2; type = EdgeType.bidirectional }

abbrev reverse_row : EdgeRow
reverse_row =
    row_of (record { primary_key = pos 2; remote_key = pos 1; type = EdgeType.unique }) (pos 5)
      (codes "x")

abbrev new_value : TimestampValue
new_value = record { timestamp = pos 9; value = codes "new" }

abbrev edge_write : Operation → DbOperation
edge_write o = record {
  table = edges;
  key = key_of both_ways;
  time_and_value = new_value;
  operation = o;
}

abbrev object_read : DbOperation
object_read = record {
  table = objects;
  key = object_key (pos 4);
  time_and_value = new_value;
  operation = Operation.read;
}

abbrev write_two : List DbOperation
write_two = edge_write Operation.insert ∷ edge_write Operation.delete ∷ []

batch_atomic_example :
    Works.EndsAtomically counting counting_works
      (Batch.run_placed counting (Batch.sort_operations write_two Batch.nothing) [])
      (3, 3, false)
      (Batch.execute_transaction_batch counting write_two [] (3, 3, false))
unfolding counting_works
batch_atomic_example =
    batch_atomic counting counting_works write_two [] (3, 3, false)
      (IsKey.edge _ _ _, (IsKey.edge _ _ _, tt)) refl

transaction_atomic_example :
    Works.EndsAtomically counting counting_works
      (run_operations counting YugabyteStatements.prepared YugabyteDriver.value_of write_two [])
      (3, 3, false)
      (YugabyteDriver.execute_transaction counting write_two [] false (3, 3, false))
unfolding counting_works
transaction_atomic_example =
    transaction_atomic counting counting_works write_two [] false (3, 3, false)
      (IsKey.edge _ _ _, (IsKey.edge _ _ _, tt)) refl

earlier_rows_lost_example :
    Batch.execute_transaction_batch counting
      (edge_write Operation.read ∷ object_read ∷ [])
      []
      (3, 3, false)
    ≡ returns (k_ok, record { timestamp = pos 2; value = codes "object" } ∷ [], (3, 3, false))
unfolding counting_last Batch.read_statement Driver.value_of
earlier_rows_lost_example =
    earlier_rows_lost counting counting_last (edge_write Operation.read ∷ []) object_read
      (eq Column.id (lit (pos 4))) [] (3, 3, false) (3, 3, true) (3, 3, false)
      ((IsKey.edge _ _ _, refl), tt) (IsKey.object (pos 4)) refl refl refl refl

written_edges_example :
    (written_finds zero_of Operation.insert new_value both_ways reverse_row
      ≡ MySqlGuards.stops zero_of (pos 9) (codes "new") both_ways reverse_row)
    × (written_finds zero_of Operation.delete new_value both_ways reverse_row
        ≡ is_due (pos 9) both_ways reverse_row)
    × (written_finds zero_of Operation.update new_value both_ways reverse_row
        ≡ is_due (pos 9) both_ways reverse_row)
    × (written_finds zero_of Operation.read new_value both_ways reverse_row
        ≡ has_key both_ways reverse_row)
written_edges_example = written_edges zero_of new_value both_ways reverse_row
