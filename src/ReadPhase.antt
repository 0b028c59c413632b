-- ===== src/ReadPhase.antt =====
-- The batch reads of `RunTransactions` in src/benchmark.cc: a loader for each range of keys, its batch
-- read, and the map of all edges. The threads of the batch read are taken one after another; none of
-- them changes a table or the loader of another.
pub mod Split
pub mod Maps
pub mod Ranges
pub mod Whole
pub mod Missed
use taobench.Prelude.{ℕ, ◌+◌, pos, List, [], ◌∷◌, Option, none, some}
use taobench.Db.{Outcome, returns, ◌>>=◌}
use taobench.Database.{Database}
use taobench.Keys.{divide_shards}
use taobench.Loader.{ShardMap, new_loader, batch_read}
use taobench.Workload.{combine_key_maps}

module _ (db : Database) where
  -- The loaders' batch reads: the failed operations of all, and the map of each.
  unfoldable pub read_ranges :
      ℕ → ℕ → List (ℕ × ℕ) → db.State → Outcome (Option (ℕ × List ShardMap × db.State))
  unfolding new_loader batch_read
  read_ranges fuel batch [] s = returns (some (0, [], s))
  read_ranges fuel batch ((start, end) ∷ ranges) s = do
    first ← batch_read db fuel batch (new_loader (pos start) (pos end)) s
    elim first [
      | none ↦ returns none
      | some (failed, l, s') ↦ (do
        others ← read_ranges fuel batch ranges s'
        elim others [
          | none ↦ returns none
          | some (failed_others, ms, s'') ↦
              returns (some (failed + failed_others, l.shard_to_edges ∷ ms, s''))
        ])
    ]

  -- From the number of threads to the map that the workload draws its edges from.
  unfoldable pub read_phase : ℕ → ℕ → ℕ → db.State → Outcome (Option (ℕ × ShardMap × db.State))
  unfolding read_ranges divide_shards combine_key_maps
  read_phase fuel batch num_threads s = do
    ranges ← divide_shards num_threads
    read ← read_ranges fuel batch ranges s
    elim read [
      | none ↦ returns none
      | some (failed, ms, s') ↦ returns (some (failed, combine_key_maps ms, s'))
    ]
