-- ===== src/Loader.antt =====
-- src/workload_loader.h and src/workload_loader.cc: `WorkloadLoader` buffers the rows of the batch
-- insert, and pages through the edges of its range of keys in the batch read.
pub mod Buffers
pub mod Writes
pub mod Order
pub mod BatchRead
pub mod Scans
use taobench.Prelude.{
  ℕ, zero, suc, ◌+◌, ltb, ℤ, pos, ◌==ℤ◌, Bytes, codes, List, [], ◌∷◌, ◌++◌, length, Bool, true,
  false, if◌then◌else◌, Option, none, some, is_empty,
}
use taobench.Db.{
  DataTable, edges, objects, Field, TimestampValue, Status, k_ok, Edge, EdgeType, type_value,
  cast_edge_type, edge_key, object_key, edge_key_values, Outcome, returns, faults, Fault, ◌>>=◌,
}
use taobench.Database.{Database}
use taobench.Keys.{get_shard_from_key}

-- The map from shards to edges, as an association list; the order of its entries stands for no order.
abbrev pub ShardMap : Type 0
ShardMap = List (ℤ × List Edge)

-- `map[shard].emplace_back(edge)`.
unfoldable pub emplace : ℤ → Edge → ShardMap → ShardMap
emplace shard e [] = (shard, e ∷ []) ∷ []
emplace shard e ((s, es) ∷ m) =
    if s ==ℤ shard then (s, es ++ e ∷ []) ∷ m else (s, es) ∷ emplace shard e m

pub record Loader : Type 0 where
  pub shard_to_edges : ShardMap
  pub start_key : ℤ
  pub end_key : ℤ
  pub object_key_buffer : List (List Field)
  pub object_value_buffer : List TimestampValue
  pub edge_key_buffer : List (List Field)
  pub edge_value_buffer : List TimestampValue

-- The constructor.
unfoldable pub new_loader : ℤ → ℤ → Loader
new_loader start end = record {
  shard_to_edges = [];
  start_key = start;
  end_key = end;
  object_key_buffer = [];
  object_value_buffer = [];
  edge_key_buffer = [];
  edge_value_buffer = [];
}

-- A `bool` that is added to the count of failures.
abbrev pub failed : Status → ℕ
failed k_ok = 0
failed _ = 1

module _ (db : Database) where
  open db use {State}

  unfoldable pub flush_edge_buffer : Loader → State → Outcome (ℕ × Loader × State)
  flush_edge_buffer l s = do
    (status, s') ← db.batch_insert edges l.edge_key_buffer l.edge_value_buffer s
    returns (failed status, record l { edge_key_buffer = []; edge_value_buffer = [] }, s')

  unfoldable pub flush_object_buffer : Loader → State → Outcome (ℕ × Loader × State)
  flush_object_buffer l s = do
    (status, s') ← db.batch_insert objects l.object_key_buffer l.object_value_buffer s
    returns (failed status, record l { object_key_buffer = []; object_value_buffer = [] }, s')

  -- The row of an edge and those of its two objects join the buffers.
  unfoldable pub buffer_row : ℤ → ℤ → ℤ → EdgeType → TimestampValue → Loader → Loader
  buffer_row shard primary remote type tv l = record l {
    shard_to_edges =
        emplace shard (record { primary_key = primary; remote_key = remote; type = type })
          l.shard_to_edges;
    edge_value_buffer = l.edge_value_buffer ++ tv ∷ [];
    edge_key_buffer = l.edge_key_buffer ++ edge_key primary remote (type_value type) ∷ [];
    object_key_buffer = (l.object_key_buffer ++ object_key primary ∷ []) ++ object_key remote ∷ [];
    object_value_buffer = (l.object_value_buffer ++ tv ∷ []) ++ tv ∷ [];
  }

  unfoldable pub flush_edges_if : Bool → Loader → State → Outcome (ℕ × Loader × State)
  unfolding flush_edge_buffer
  flush_edges_if true l s = flush_edge_buffer l s
  flush_edges_if false l s = returns (0, l, s)

  unfoldable pub flush_objects_if : Bool → Loader → State → Outcome (ℕ × Loader × State)
  unfolding flush_object_buffer
  flush_objects_if true l s = flush_object_buffer l s
  flush_objects_if false l s = returns (0, l, s)

  -- `WriteToBuffers`; the batch size is not negative.
  unfoldable pub write_to_buffers :
      ℤ → ℤ → ℤ → EdgeType → TimestampValue → ℕ → Loader → State → Outcome (ℕ × Loader × State)
  unfolding buffer_row flush_edges_if flush_objects_if
  write_to_buffers shard primary remote type tv batch_size l s = do
    let l₀ = buffer_row shard primary remote type tv l
    (failed_edges, l₁, s₁) ← flush_edges_if (ltb batch_size (length l₀.edge_value_buffer)) l₀ s
    (failed_objects, l₂, s₂) ←
        flush_objects_if (ltb batch_size (length l₁.object_value_buffer)) l₁ s₁
    returns (failed_edges + failed_objects, l₂, s₂)

  -- A row of the batch read becomes an edge of its shard. A type that is no enumerator is not
  -- modelled: it counts as a fault here.
  unfoldable pub add_typed : ℤ → ℤ → Option EdgeType → ShardMap → Outcome ShardMap
  unfolding emplace
  add_typed id1 id2 none m = faults Fault.out_of_range
  add_typed id1 id2 (some type) m = returns (
      emplace (get_shard_from_key id1) (record { primary_key = id1; remote_key = id2; type = type })
        m)

  unfoldable pub add_rows : List (List Field) → ShardMap → Outcome ShardMap
  unfolding add_typed
  add_rows [] m = returns m
  add_rows (row ∷ rows) m = do
    (id1, id2, type) ← edge_key_values row
    m' ← add_typed id1 id2 (cast_edge_type type) m
    add_rows rows m'

  -- `read_buffer.back()`, none for an empty buffer.
  unfoldable pub back : List (List Field) → Option (List Field)
  back [] = none
  back (row ∷ []) = some row
  back (row ∷ row' ∷ rows) = back (row' ∷ rows)

  -- A read after the first throws unless it succeeds.
  abbrev pub check : Status → Outcome (Unit {0})
  check k_ok = returns tt
  check _ = faults Fault.runtime_error

  -- The loop of `BatchRead` after the first read, from the last row that was read.
  unfoldable pub read_on :
      ℕ → ℕ → List Field → List Field → ShardMap → State → Outcome (Option (ShardMap × State))
  unfolding add_rows back
  read_on zero n ceiling last m s = returns none
  read_on (suc fuel) n ceiling last m s = do
    (id1, id2, type) ← edge_key_values last
    (status, rows, s') ← db.batch_read edges last ceiling n [] s
    done ← check status
    m' ← add_rows rows m
    elim (back rows) [
      | none ↦ returns (some (m', s'))
      | some row ↦ read_on fuel n ceiling row m' s'
    ]

  -- `BatchRead`: the status of the first read is not looked at. The result is the number of failed
  -- operations, which is always 0; `none` means that the fuel ran out.
  unfoldable pub batch_read : ℕ → ℕ → Loader → State → Outcome (Option (ℕ × Loader × State))
  unfolding read_on
  batch_read fuel n l s = do
    let floor = edge_key l.start_key (pos 0) (pos 0)
    let ceiling = edge_key l.end_key (pos 0) (pos 0)
    (status, rows, s') ← db.batch_read edges floor ceiling n [] s
    m ← add_rows rows l.shard_to_edges
    elim (back rows) [
      | none ↦ returns (some (0, record l { shard_to_edges = m }, s'))
      | some row ↦ (do
        r ← read_on fuel n ceiling row m s'
        elim r [
          | none ↦ returns none
          | some (m', s'') ↦ returns (some (0, record l { shard_to_edges = m' }, s''))
        ])
    ]
