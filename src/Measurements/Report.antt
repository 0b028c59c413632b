-- ===== src/Measurements/Report.antt =====
-- `Report` on the eight entries.
use taobench.Prelude.{
  ℕ, zero, suc, ◌<◌, List, [], ◌∷◌, some, ◌≡◌, ◌≢◌, refl, arith, length, get_elem?,
}
use taobench.Db.{Operation, returns}
use taobench.Measurements.{Measurements, OpStats, modify, op_index, report, record_latency}

pub get_elem?-some {ℓ} :
    {A : Type ℓ} (xs : List A) (i : ℕ) → i < length xs → (x : A) × (get_elem? xs i ≡ some x)
get_elem?-some [] i h = elim h [ ]
get_elem?-some (x ∷ xs) zero h = (x, refl)
get_elem?-some (x ∷ xs) (suc i) h = get_elem?-some xs i (omega arith)

pub length-modify :
    (i : ℕ) (f : OpStats → OpStats) (ss : List OpStats) → length (modify i f ss) ≡ length ss
length-modify i f [] = refl
length-modify zero f (s ∷ ss) = refl
length-modify (suc i) f (s ∷ ss) = omega (arith, length-modify i f ss)

pub op_index-lt : (op : Operation) → op ≢ Operation.max_op_type → op_index op < 8
unfolding op_index
op_index-lt Operation.max_op_type ne = absurd (ne refl)
op_index-lt Operation.insert ne = omega arith
op_index-lt _ ne = omega arith

-- With its eight entries in place `Report` succeeds for every operation but `MAXOPTYPE`, changes the
-- entry of that operation alone, keeps eight entries and leaves the counters of the cache.
pub report_total :
    (op : Operation) (latency : ℕ) (m : Measurements)
    → op ≢ Operation.max_op_type
    → length m.stats ≡ 8
    → (m' : Measurements) × (report op latency m ≡ returns m')
      × (m'.stats ≡ modify (op_index op) (record_latency latency) m.stats)
      × (length m'.stats ≡ 8)
      × (m'.read_hit ≡ m.read_hit)
      × (m'.read_miss ≡ m.read_miss)
unfolding report
report_total op latency m ne h = (
  record m { stats = modify (op_index op) (record_latency latency) m.stats },
  (let (s, found) = get_elem?-some m.stats (op_index op) (omega (arith, op_index-lt op ne)) in
      ground arith),
  refl,
  omega (arith, length-modify (op_index op) (record_latency latency) m.stats),
  refl,
  refl,
)
