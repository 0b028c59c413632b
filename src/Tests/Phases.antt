-- ===== src/Tests/Phases.antt =====
-- The theorems about the batch reads and the batch insert of all threads at concrete inputs.
use taobench.Prelude.{◌*◌, ℤ, pos, [], length, some, ◌≡◌, refl, arith}
use taobench.Db.{returns}
use taobench.Keys.{num_shards, shard_unit}
use taobench.Loader.{ShardMap, Loader}
use taobench.Loader.Order.{select}
use taobench.Loader.BatchRead.{edges_of, of_shard}
use taobench.Workload.{get_num_loaded_edges}
use taobench.ReadPhase.{read_phase}
use taobench.ReadPhase.Ranges.{at}
use taobench.ReadPhase.Whole.{read_phase_lem}
use taobench.ReadPhase.Missed.{read_phase_misses_last}
use taobench.Tests.Tables.{four_edges, paged, paged_lem}

read_phase_lem_example :
    (m : ShardMap) × (s' : paged.State) × (read_phase paged 5 2 10 tt ≡ returns (some (0, m, s')))
    × (four_edges ≡ four_edges)
    × ((shard : ℤ)
        → edges_of shard m
          ≡ of_shard shard (select (at 0) (at (num_shards * shard_unit)) four_edges))
    × (get_num_loaded_edges m ≡ length (select (at 0) (at (num_shards * shard_unit)) four_edges))
unfolding paged_lem
read_phase_lem_example =
    read_phase_lem paged_lem 5 2 10 tt (omega arith) (omega arith) refl (omega arith) (omega arith)
      ((λ e. absurd (cc)), ((λ e. absurd (cc)), ((λ e. absurd (cc)), ((λ e. absurd (cc)), tt))))

read_phase_misses_last_example :
    (m : ShardMap) × (s' : paged.State) × (read_phase paged 5 2 3 tt ≡ returns (some (0, m, s')))
    × (edges_of (pos 49) m ≡ [])
unfolding paged_lem
read_phase_misses_last_example =
    read_phase_misses_last paged_lem 5 2 3 tt (omega arith) (omega arith) (λ e. omega arith)
      (omega arith) (omega arith) (omega arith, (omega arith, (omega arith, (omega arith, tt))))

abbrev no_rows : Loader
no_rows = record {
  shard_to_edges = [];
  start_key = pos 0;
  end_key = pos 0;
  object_key_buffer = [];
  object_value_buffer = [];
  edge_key_buffer = [];
  edge_value_buffer = [];
}
