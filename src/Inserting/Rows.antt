-- ===== src/Inserting/Rows.antt =====
-- The rows that a thread of the batch insert makes up, and the tables' rows for them.
use taobench.Prelude.{ℕ, suc, ◌<◌, pos, Bytes, codes, List, [], ◌∷◌, ◌≡◌, refl, length, All, arith}
use taobench.Db.{edge_string_to_type, type_value, edge_key, object_key, returns}
use taobench.Keys.{num_shards, get_shard_from_key}
use taobench.Keys.Packing.{shard-generate_key}
use taobench.Loader.Buffers.{Row}
use taobench.Workload.{
  Source, Workload, Run, element, get_random_type, get_random_edge_type, new_key, letters,
}
use taobench.Workload.Transactions.{letters-AreLetters, IsLetter}
use taobench.Inserting.{NewRow, new_row}

-- What the batch insert draws: a number below another, and an edge type that the configuration lists.
pub record DrawsRows (source : Source) (w : Workload) : Type 0 where
  pub chooses : (n : ℕ) (s : source.State) → (source.below (suc n) s).0 < suc n
  pub edge_types :
      (s : source.State)
      → (t : Bytes) × (element (w.types (codes "edge_types")) (source.draw (codes "edge_types") s).0
          ≡ returns t)

-- A row whose first node lies in its shard, one of the shards there are, with a value of 150 letters.
abbrev pub IsNewRow : NewRow → Type 0
IsNewRow row =
    (row.primary_shard < num_shards)
    × (get_shard_from_key row.primary_key ≡ pos row.primary_shard)
    × All IsLetter row.time_and_value.value
    × (length row.time_and_value.value ≡ 150)

abbrev pub edge_rows : List NewRow → List Row
edge_rows [] = []
edge_rows (row ∷ rows) =
    (edge_key row.primary_key row.remote_key (type_value row.type), row.time_and_value)
    ∷ edge_rows rows

abbrev pub object_rows : List NewRow → List Row
object_rows [] = []
object_rows (row ∷ rows) =
    (object_key row.primary_key, row.time_and_value)
    ∷ (object_key row.remote_key, row.time_and_value)
    ∷ object_rows rows

pub new_row-IsNewRow :
    {source : Source} {w : Workload}
    → DrawsRows source w
    → (r : Run source w)
    → (row : NewRow) × (r' : Run source w) × (new_row source w r ≡ returns (row, r')) × IsNewRow row
unfolding new_row get_random_edge_type get_random_type new_key
new_row-IsNewRow {source} {w} draws (s, n) =
    let a = source.below num_shards s in
    let b = source.draw (codes "remote_shards") a.1 in
    let (k, r₁) = new_key source w a.0 (b.1, n) in
    let (j, r₂) = new_key source w b.0 r₁ in
    let c = source.draw (codes "edge_types") r₂.0 in
    let (t, found) = draws.edge_types r₂.0 in
    let timed = source.now c.1 in
    let (all, size) = letters-AreLetters source w 150 timed.1 in
    (
      record {
        primary_shard = a.0;
        primary_key = k;
        remote_key = j;
        type = edge_string_to_type t;
        time_and_value = record {
          timestamp = pos timed.0;
          value = (letters source w 150 timed.1).0;
        };
      },
      ((letters source w 150 timed.1).1, r₂.1),
      rw found refl,
      (
        draws.chooses 49 s,
        shard-generate_key a.0 _ _ (omega (arith, draws.chooses 49 s)),
        all,
        size,
      ),
    )
