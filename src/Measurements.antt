-- ===== src/Measurements.antt =====
-- src/measurements.h and src/measurements.cc: the counters behind the benchmark's report. The arrays
-- of the class are kept as one list of records, an entry for each operation; the counters wrap at
-- their widths.
pub mod Report
pub mod Concurrent
pub mod Past
pub mod Invariant
pub mod Steps
pub mod Finished
pub mod Progress
use taobench.Prelude.{
  ℕ, zero, suc, ◌+◌, ◌-◌, ◌%◌, ◌^◌, ◌<◌, List, [], ◌∷◌, ◌++◌, Option, none, some, Bool, true, false,
  if◌then◌else◌, ltb, ◌==◌, get_elem?, replicate, map,
}
use taobench.Db.{Operation, Outcome, returns, faults, Fault, ◌>>=◌}

-- `static_cast<int>(op)`.
unfoldable pub op_index : Operation → ℕ
op_index Operation.insert = 0
op_index Operation.read = 1
op_index Operation.update = 2
op_index Operation.scan = 3
op_index Operation.read_modify_write = 4
op_index Operation.delete = 5
op_index Operation.read_transaction = 6
op_index Operation.write_transaction = 7
op_index Operation.max_op_type = 8

pub record OpStats : Type 0 where
  pub count : ℕ
  pub latency_sum : ℕ
  pub latency_min : ℕ
  pub latency_max : ℕ
  pub latencies : List ℕ

pub record Measurements : Type 0 where
  pub stats : List OpStats
  pub read_hit : ℕ
  pub read_miss : ℕ

abbrev pub uint64_max : ℕ
uint64_max = 2 ^ 64 - 1

abbrev pub cleared : OpStats
cleared = record {
  count = 0;
  latency_sum = 0;
  latency_min = uint64_max;
  latency_max = 0;
  latencies = [];
}

-- The constructor.
unfoldable pub initial : Measurements
initial = record { stats = replicate 8 cleared; read_hit = 0; read_miss = 0 }

-- What `Report` does to the entries of one operation, where no other thread comes between.
unfoldable pub record_latency : ℕ → OpStats → OpStats
record_latency latency s = record {
  count = (s.count + 1) % 2 ^ 32;
  latency_sum = (s.latency_sum + latency) % 2 ^ 64;
  latency_min = if ltb latency s.latency_min then latency else s.latency_min;
  latency_max = if ltb s.latency_max latency then latency else s.latency_max;
  latencies = s.latencies ++ latency ∷ [];
}

abbrev pub modify : ℕ → (OpStats → OpStats) → List OpStats → List OpStats
modify i f [] = []
modify zero f (s ∷ ss) = f s ∷ ss
modify (suc i) f (s ∷ ss) = s ∷ modify i f ss

-- `Report`; `MAXOPTYPE` has no entry in the arrays.
unfoldable pub report : Operation → ℕ → Measurements → Outcome Measurements
unfolding op_index record_latency
report op latency m = elim (get_elem? m.stats (op_index op)) [
  | none ↦ faults Fault.out_of_bounds
  | some _ ↦ returns (record m { stats = modify (op_index op) (record_latency latency) m.stats })
]

-- `ReportRead`, whose counters are `int64_t`; their overflow is not modelled.
unfoldable pub report_read : Bool → Measurements → Measurements
report_read true m = record m { read_hit = m.read_hit + 1 }
report_read false m = record m { read_miss = m.read_miss + 1 }

-- `GetCount`.
unfoldable pub get_count : Operation → Measurements → Outcome ℕ
unfolding op_index
get_count op m = elim (get_elem? m.stats (op_index op)) [
  | none ↦ faults Fault.out_of_bounds
  | some s ↦ returns s.count
]

-- The loop of `GetTotalNumOps` over the entries, in `uint64_t`.
unfoldable pub total_from : ℕ → List OpStats → ℕ
total_from total [] = total
total_from total (s ∷ ss) = total_from ((total + s.count) % 2 ^ 64) ss

unfoldable pub get_total_num_ops : Measurements → ℕ
unfolding total_from
get_total_num_ops m = total_from 0 m.stats

-- `Reset` clears every entry, and leaves the two counters of the cache.
unfoldable pub reset : Measurements → Measurements
reset m = record m { stats = map (λ _. cleared) m.stats }
