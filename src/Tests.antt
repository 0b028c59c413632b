-- ===== src/Tests.antt =====
-- The theorems at concrete inputs.
mod Caches
mod Rows
mod Tables
mod Clients
mod Connections
mod SpannerDriver
mod SqlDrivers
mod Workloads
mod KeyRanges
mod Phases
mod Threads
mod Files
use taobench.Prelude.{
  ℕ, suc, ◌+◌, ◌*◌, ◌%◌, ◌^◌, ◌≤◌, ◌<◌, ℤ, pos, negsuc, codes, eq_bytes_iff, List, [], ◌∷◌, ◌++◌,
  length, map, Bool, true, false, ◌||◌, All, Option, none, some, ◌≡◌, ◌≢◌, ◌⊎◌, inl, inr, refl,
  arith,
}
use taobench.Db.{
  DataTable, edges, objects, Field, TimestampValue, DbOperation, Operation, Status, k_ok, k_error,
  Outcome, returns, faults, Fault, Edge, EdgeType, EdgeRow, row_of, type_value, object_key,
  edge_key, field, edge_type_to_string,
}
use taobench.Db.Incompatible.{conflicts, excludes, key_of}
use taobench.Db.Conflicts.{exclusive, conflicts-eq-exclusive}
use taobench.Database.{Database, IsKey}
use taobench.Cache.Codec.{fields_to_str, timeval_to_str, str_to_timeval}
use taobench.Cache.Codec
use taobench.Measurements.{initial}
use taobench.Wrapper.{Wrapper, execute, execute_transaction}
use taobench.Wrapper.Contract.{DatabaseLaws, IsReady, AgreeOff}
use taobench.Wrapper.Coherence.{Unchanged, ChangesOnly}
use taobench.Wrapper.Execute.{ReadsThrough, IsOn, execute_read, execute_write}
use taobench.Wrapper.ReadTransactions.{read_transaction}
use taobench.Wrapper.WriteTransactions.{IsAmong, AllDeleted, ChangesAmong, write_transaction}
use taobench.Wrapper.ShortReplies.{short_reply_faults}
use taobench.Loader.{Loader, write_to_buffers, batch_read}
use taobench.Loader.Buffers.{IsBuffered, edges_so_far, objects_so_far}
use taobench.Loader.Writes.{write_to_buffers_lem}
use taobench.Loader.Order.{Key, key_lt, select}
use taobench.Loader.BatchRead.{edges_of, of_shard, batch_read_lem}
use taobench.Sql.Guard.{IsConsistent}
use taobench.MySql.Driver.{insert}
use taobench.MySql.Guards.{stops, is_missed, guard_lem}
use taobench.MySql.Inserts.{insert-IsConsistent}
use taobench.MySql.Deletes.{removes, is_due, removes_unique_only}
use taobench.Keys.{shard_unit}
use taobench.Yugabyte.Contract.{yugabyte, yugabyte_laws, yugabyte-WritesOwnKeys}
use taobench.Yugabyte.ReadOrder.{yugabyte-ReadsInOrder}
use taobench.Tests.Caches.{memory, memory_lem, empty_memory, one_object}
use taobench.Tests.Rows.{seven, one_row, one_row_lem}
use taobench.Tests.Tables.{
  edge_table, edge_table_lem, zero_of, two_tables, two_tables_lem, four_edges, paged, paged_lem,
}

abbrev operation_on : List Field → Operation → DbOperation
operation_on k o = record {
  table = objects;
  key = k;
  time_and_value = record { timestamp = pos 9; value = codes "new" };
  operation = o;
}

abbrev driver : Database
driver = yugabyte one_row

abbrev laws : DatabaseLaws driver
laws = yugabyte_laws one_row one_row_lem

abbrev start : Wrapper memory driver
start = record { cache = empty_memory; store = (3, 3); measurements = initial }

start-IsReady : IsReady memory_lem laws start
unfolding initial memory_lem
start-IsReady = record { agree = λ t k v key held. absurd (cc); entries = refl }

abbrev seven_read : DbOperation
seven_read = operation_on (object_key (pos 7)) Operation.read

execute_read_example :
    ReadsThrough memory_lem laws (execute memory driver seven_read [] 5) (seven 3) [] start
unfolding yugabyte_laws one_row_lem
execute_read_example =
    execute_read memory_lem laws seven_read [] 5 start (seven 3) (IsKey.object (pos 7))
      (IsKey.object (pos 7)) refl refl start-IsReady

abbrev seven_update : DbOperation
seven_update = operation_on (object_key (pos 7)) Operation.update

execute_write_example :
    (status : Status) × (w' : Wrapper memory driver) × (execute memory driver seven_update [] 5
        start
      ≡ returns (status, [], w'))
    × (length w'.measurements.stats ≡ 8)
    × ChangesOnly memory_lem laws (IsOn memory_lem laws seven_update) start.store w'.store
    × AgreeOff memory_lem laws (IsOn memory_lem laws seven_update) w'.cache w'.store
    × ((memory.delete (fields_to_str seven_update.key) empty_memory).0 ≡ true
        → IsReady memory_lem laws w')
unfolding yugabyte_laws one_row_lem
execute_write_example =
    execute_write memory_lem laws seven_update [] 5 start (IsKey.object (pos 7)) (λ e. absurd (cc))
      (λ e. absurd (cc)) start-IsReady

read_transaction_example :
    (status : Status) × (buffer' : List TimestampValue) × (w' : Wrapper memory driver)
    × (execute_transaction memory driver (seven_read ∷ seven_read ∷ []) [] true 5 start
        ≡ returns (status, buffer', w'))
    × IsReady memory_lem laws w'
    × Unchanged memory_lem laws start.store w'.store
    × (status ≡ k_ok → buffer' ≡ [] ++ seven 3 ∷ seven 3 ∷ [])
unfolding yugabyte_laws one_row_lem
read_transaction_example =
    read_transaction memory_lem laws (yugabyte-ReadsInOrder one_row one_row_lem memory_lem)
      seven_read (seven_read ∷ []) (seven 3 ∷ seven 3 ∷ []) [] 5 start
      (
        (IsKey.object (pos 7), refl, IsKey.object (pos 7)),
        ((IsKey.object (pos 7), refl, IsKey.object (pos 7)), tt),
      )
      ((refl, λ e. absurd (cc)), ((refl, λ e. absurd (cc)), tt)) start-IsReady

write_transaction_example :
    (status : Status) × (w' : Wrapper memory driver) × (execute_transaction memory driver
        (seven_update ∷ seven_update ∷ [])
        []
        false
        5
        start
      ≡ returns (status, [], w'))
    × (length w'.measurements.stats ≡ 8)
    × ChangesAmong memory_lem laws (seven_update ∷ seven_update ∷ []) start.store w'.store
    × AgreeOff memory_lem laws
        (λ t k. IsAmong t k (seven_update ∷ seven_update ∷ []))
        w'.cache
        w'.store
    × (AllDeleted memory_lem (seven_update ∷ seven_update ∷ []) empty_memory
        → IsReady memory_lem laws w')
unfolding yugabyte_laws one_row_lem
write_transaction_example =
    write_transaction memory_lem laws (yugabyte-WritesOwnKeys one_row one_row_lem memory_lem)
      seven_update (seven_update ∷ []) [] 5 start
      ((IsKey.object (pos 7), λ e. absurd (cc)), ((IsKey.object (pos 7), λ e. absurd (cc)), tt))
      start-IsReady

abbrev absent_read : DbOperation
absent_read = operation_on (object_key (pos 8)) Operation.read

abbrev cold : Wrapper memory one_object
cold = record { cache = empty_memory; store = 3; measurements = initial }

short_reply_faults_example :
    execute_transaction memory one_object (seven_read ∷ absent_read ∷ []) [] true 5 cold
    ≡ faults Fault.out_of_bounds
unfolding memory_lem
short_reply_faults_example =
    short_reply_faults memory_lem one_object (seven_read ∷ absent_read ∷ []) [] 5 cold
      (seven 3 ∷ []) 3 (λ k. refl) (refl, (refl, tt)) refl (omega arith)

abbrev candidate : Edge
candidate = record { primary_key = pos 1; remote_key = pos 2; type = EdgeType.unique }

abbrev new_value : TimestampValue
new_value = record { timestamp = pos 9; value = codes "new" }

abbrev stored_edges : List EdgeRow
stored_edges =
    row_of (record { primary_key = pos 3; remote_key = pos 2; type = EdgeType.other }) (pos 1)
      (codes "x")
    ∷ []

insert-IsConsistent_example :
    (status : Status) × (s' : List EdgeRow) × (insert edge_table edges
        (key_of candidate)
        new_value
        stored_edges
      ≡ returns (status, s'))
    × ((status ≡ k_ok) ⊎ (status ≡ k_error))
    × IsConsistent s'
unfolding edge_table_lem
insert-IsConsistent_example =
    insert-IsConsistent edge_table zero_of edge_table_lem candidate new_value stored_edges
      (λ e. absurd (cc))
      ((record { primary_key = pos 3; remote_key = pos 2; type = EdgeType.other }, refl, refl), tt)

abbrev other_edge : Edge
other_edge = record { primary_key = pos 1; remote_key = pos 2; type = EdgeType.other }

removes_unique_only_example :
    removes zero_of (pos 9) other_edge (row_of candidate (pos 5) (codes "x"))
    ≡ is_due (pos 9) candidate (row_of candidate (pos 5) (codes "x"))
removes_unique_only_example =
    removes_unique_only zero_of (pos 9) other_edge (row_of candidate (pos 5) (codes "x"))
      (λ t. refl)

abbrev loader_of_first : Loader
loader_of_first = record {
  shard_to_edges = [];
  start_key = pos 0;
  end_key = pos shard_unit;
  object_key_buffer = [];
  object_value_buffer = [];
  edge_key_buffer = [];
  edge_value_buffer = [];
}

write_to_buffers_lem_example :
    (f : ℕ) × (l' : Loader) × (s' : two_tables.State) × (write_to_buffers two_tables
        (pos 0)
        (pos 3)
        (pos 4)
        EdgeType.other
        new_value
        1
        loader_of_first
        ([], [])
      ≡ returns (f, l', s'))
    × IsBuffered 1 l'
    × (f ≡ 0
        → (edges_so_far two_tables_lem l' s'
            ≡ edges_so_far two_tables_lem loader_of_first ([], [])
              ++ (edge_key (pos 3) (pos 4) (type_value EdgeType.other), new_value) ∷ [])
          × (objects_so_far two_tables_lem l' s'
              ≡ objects_so_far two_tables_lem loader_of_first ([], [])
                ++ (object_key (pos 3), new_value) ∷ (object_key (pos 4), new_value) ∷ []))
unfolding two_tables_lem
write_to_buffers_lem_example =
    write_to_buffers_lem two_tables_lem (pos 0) (pos 3) (pos 4) EdgeType.other new_value 1
      loader_of_first ([], [])
      (record {
        edge_pairs = refl;
        object_pairs = refl;
        edge_keys = tt;
        object_keys = tt;
        edge_bound = omega arith;
        object_bound = omega arith;
      })

abbrev first_floor : Key
first_floor = (pos 0, pos 0, pos 0)

abbrev first_ceiling : Key
first_ceiling = (pos shard_unit, pos 0, pos 0)

batch_read_lem_example :
    (m : List (ℤ × List Edge)) × (s' : paged.State) × (batch_read paged 5 2 loader_of_first tt
      ≡ returns (some (0, record loader_of_first { shard_to_edges = m }, s')))
    × (four_edges ≡ four_edges)
    × ((shard : ℤ)
        → edges_of shard m
          ≡ edges_of shard [] ++ of_shard shard (select first_floor first_ceiling four_edges))
unfolding select key_lt paged_lem
batch_read_lem_example = batch_read_lem paged_lem 5 2 loader_of_first tt (omega arith) (omega arith)

str_to_timeval-timeval_to_str_example :
    str_to_timeval (timeval_to_str (seven 3)) ≡ returns (seven 3)
str_to_timeval-timeval_to_str_example = Codec.str_to_timeval-timeval_to_str (seven 3) (omega arith)

guard_lem_example : excludes candidate (row_of other_edge (pos 5) (codes "x")) ≡ (
    stops zero_of (pos 9) (codes "new") candidate (row_of other_edge (pos 5) (codes "x"))
    || is_missed candidate (row_of other_edge (pos 5) (codes "x")))
guard_lem_example =
    guard_lem zero_of (pos 9) (codes "new") candidate (row_of other_edge (pos 5) (codes "x"))

conflicts-eq-exclusive_example : conflicts candidate other_edge ≡ exclusive candidate other_edge
conflicts-eq-exclusive_example = conflicts-eq-exclusive candidate other_edge
