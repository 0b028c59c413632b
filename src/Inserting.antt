-- ===== src/Inserting.antt =====
-- The batch insert: `LoadRow` of src/workload.cc, `BatchInsertThread` of src/loaders.h, and how
-- `RunBatchInsert` of src/benchmark.cc divides the rows among the threads.
pub mod Shares
pub mod Rows
pub mod Threads
use taobench.Prelude.{
  ℕ, zero, suc, ◌+◌, ◌/◌, ◌%◌, leb, ℤ, pos, Bytes, codes, List, [], ◌∷◌, Bool, true, false,
  if◌then◌else◌,
}
use taobench.Db.{TimestampValue, EdgeType, Outcome, returns, ◌>>=◌}
use taobench.Database.{Database}
use taobench.Keys.{num_shards}
use taobench.Loader.{Loader, write_to_buffers, flush_edge_buffer, flush_object_buffer}
use taobench.Workload.{Source, Workload, Run, new_key, get_random_edge_type, letters}

-- The rows that `RunBatchInsert` gives to thread `i`; the numbers of rows and of threads are not
-- negative, and no thread at all is not modelled.
unfoldable pub rows_of_thread : ℕ → ℕ → ℕ → ℕ
rows_of_thread total_keys num_threads i =
    let num_keys_per_thread = total_keys / num_threads in
    if leb (total_keys % num_threads) i then num_keys_per_thread else num_keys_per_thread + 1

-- What `LoadRow` hands to the loader.
pub record NewRow : Type 0 where
  pub primary_shard : ℕ
  pub primary_key : ℤ
  pub remote_key : ℤ
  pub type : EdgeType
  pub time_and_value : TimestampValue

module _ (source : Source) (w : Workload) where
  -- The keys, the type and the value of a new row.
  unfoldable pub new_row : Run source w → Outcome (NewRow × Run source w)
  unfolding new_key get_random_edge_type letters
  new_row (s, n) =
      let (primary_shard, s₁) = source.below num_shards s in
      let (remote_shard, s₂) = source.draw (codes "remote_shards") s₁ in
      let (primary_key, r₁) = new_key source w primary_shard (s₂, n) in
      let (remote_key, r₂) = new_key source w remote_shard r₁ in
      (do
        (type, r₃) ← get_random_edge_type source w r₂
        let timed = source.now r₃.0
        let valued = letters source w 150 timed.1
        returns (
          record {
            primary_shard = primary_shard;
            primary_key = primary_key;
            remote_key = remote_key;
            type = type;
            time_and_value = record { timestamp = pos timed.0; value = valued.0 };
          },
          (valued.1, r₃.1),
        ))

  module _ (db : Database) where
    -- Where a thread of the batch insert is.
    abbrev pub Insert : Type 0
    Insert = ℕ × Run source w × Loader × db.State

    -- `LoadRow`.
    unfoldable pub load_row : ℕ → Run source w → Loader → db.State → Outcome Insert
    unfolding new_row write_to_buffers
    load_row batch r l s = do
      (row, r') ← new_row r
      (failed, l', s') ←
          write_to_buffers db (pos row.primary_shard) row.primary_key row.remote_key row.type
            row.time_and_value batch l s
      returns (failed, r', l', s')

    -- The loop of `BatchInsertThread`.
    unfoldable pub load_rows : ℕ → ℕ → Run source w → Loader → db.State → Outcome Insert
    unfolding load_row
    load_rows zero batch r l s = returns (0, r, l, s)
    load_rows (suc num_ops) batch r l s = do
      (failed, r₁, l₁, s₁) ← load_row batch r l s
      (failed_rest, r₂, l₂, s₂) ← load_rows num_ops batch r₁ l₁ s₁
      returns (failed + failed_rest, r₂, l₂, s₂)

    -- `BatchInsertThread`; of the two flushes at its end that of the objects is taken first.
    unfoldable pub batch_insert_thread : ℕ → ℕ → Run source w → Loader → db.State → Outcome Insert
    unfolding load_rows flush_object_buffer flush_edge_buffer
    batch_insert_thread num_ops batch r l s = do
      (failed, r', l₁, s₁) ← load_rows num_ops batch r l s
      (failed_objects, l₂, s₂) ← flush_object_buffer db l₁ s₁
      (failed_edges, l₃, s₃) ← flush_edge_buffer db l₂ s₂
      returns (failed + (failed_objects + failed_edges), r', l₃, s₃)
