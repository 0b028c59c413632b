-- ===== src/ReadPhase/Missed.antt =====
-- What the batch reads miss where the number of threads does not divide the number of shards.
use taobench.Prelude.{
  ℕ, ◌-◌, ◌*◌, ◌%◌, ◌≤◌, ◌<◌, ℤ, pos, negsuc, ◌==ℤ◌, ==ℤ→eq, Bool, true, false, ◌&&◌, if◌then◌else◌,
  List, [], ◌∷◌, ◌++◌, All, some, ◌≡◌, ◌≢◌, refl, ap, ◌∙◌, arith, length, Bool-cases, inl, inr,
  ◌≤ℤ◌, pos_part,
}
use taobench.Db.{Edge, EdgeType, type_value, returns}
use taobench.Database.{Database}
use taobench.Keys.{num_shards, shard_unit, get_shard_from_key}
use taobench.Keys.Coverage.{division_misses_last}
use taobench.Loader.{ShardMap}
use taobench.Loader.Order.{Key, key, key_lt, select, within}
use taobench.Loader.BatchRead.{ReadsPages, edges_of, of_shard}
use taobench.Workload.{combine_key_maps}
use taobench.Workload.Loaded.{combine_key_maps_lem}
use taobench.ReadPhase.{read_phase}
use taobench.ReadPhase.Maps.{of_shard-append}
use taobench.ReadPhase.Ranges.{at, all_found, ranges_lem}

abbrev pub last_shard : ℕ
last_shard = num_shards - 1

-- The second node is not negative, as keys are.
abbrev pub IsUsual : Edge → Type 0
IsUsual e = pos 0 ≤ℤ e.remote_key

above_end :
    (k b c : ℤ) (end : ℕ)
    → pos 0 ≤ℤ b
    → pos 0 ≤ℤ c
    → end ≤ last_shard * shard_unit
    → get_shard_from_key k ≡ pos last_shard
    → key_lt (k, b, c) (at end) ≡ false
unfolding key_lt get_shard_from_key
above_end (pos k) (pos b) (pos c) end hb hc le h =
    let far : end ≤ k = omega (arith, ap pos_part h) in ground arith
above_end (pos k) (negsuc b) c end hb hc le h = absurd (omega arith)
above_end (pos k) (pos b) (negsuc c) end hb hc le h = absurd (omega arith)
above_end (negsuc k) b c end hb hc le h = absurd (cc)

type_value-le : (t : EdgeType) → pos 0 ≤ℤ type_value t
unfolding type_value
type_value-le EdgeType.unique = omega arith
type_value-le EdgeType.bidirectional = omega arith
type_value-le EdgeType.unique_and_bidirectional = omega arith
type_value-le EdgeType.other = omega arith

none_outside :
    (x : Bool) (shard : ℤ) (e : Edge) (es : List Edge)
    → of_shard shard es ≡ []
    → of_shard shard (if x && false then e ∷ es else es) ≡ []
none_outside true shard e es h = h
none_outside false shard e es h = h

none_elsewhere :
    (x : Bool) (shard : ℤ) (e : Edge) (es : List Edge)
    → (get_shard_from_key e.primary_key ==ℤ shard) ≡ false
    → of_shard shard es ≡ []
    → of_shard shard (if x then e ∷ es else es) ≡ []
none_elsewhere true shard e es p h = rw p h
none_elsewhere false shard e es p h = h

none_of_last :
    (lo : Key) (end : ℕ) (es : List Edge)
    → end ≤ last_shard * shard_unit
    → All IsUsual es
    → of_shard (pos last_shard) (select lo (at end) es) ≡ []
unfolding select
none_of_last lo end [] le u = refl
none_of_last lo end (e ∷ es) le (u, us) =
    let rest = none_of_last lo end es le us in
    elim (Bool-cases (get_shard_from_key e.primary_key ==ℤ pos last_shard)) [
      | inl p ↦
          rw
            (above_end e.primary_key e.remote_key (type_value e.type) end u (type_value-le e.type)
              le (==ℤ→eq (get_shard_from_key e.primary_key) (pos last_shard) p))
            (none_outside (key_lt lo (key e)) (pos last_shard) e (select lo (at end) es) rest)
      | inr p ↦
          none_elsewhere (within lo (at end) e) (pos last_shard) e (select lo (at end) es) p rest
    ]

none_in_ranges :
    (rs : List (ℕ × ℕ)) (es : List Edge)
    → All (λ range. range.1 ≤ last_shard * shard_unit) rs
    → All IsUsual es
    → of_shard (pos last_shard) (all_found rs es) ≡ []
none_in_ranges [] es h u = refl
none_in_ranges ((start, end) ∷ rs) es (h, hs) u =
    of_shard-append (pos last_shard) (select (at start) (at end) es) (all_found rs es)
    ∙ ap (λ x. x ++ of_shard (pos last_shard) (all_found rs es))
        (none_of_last (at start) end es h u)
    ∙ none_in_ranges rs es hs u

module _ {db : Database} (law : ReadsPages db) where
  -- If the number of threads, from 1 to 50, does not divide the number of shards: with pages of at
  -- least one row and more fuel than the table has edges, over a table whose second nodes are not
  -- negative, the batch reads of all threads return that no operation has failed, and yet the
  -- workload's map has no edge of the last shard, however many the table holds.
  pub read_phase_misses_last :
      (fuel batch num_threads : ℕ) (s : db.State)
      → 0 < num_threads
      → num_threads ≤ num_shards
      → num_shards % num_threads ≢ 0
      → 0 < batch
      → length (law.table s) < fuel
      → All IsUsual (law.table s)
      → (m : ShardMap) × (s' : db.State) × (read_phase db fuel batch num_threads s
          ≡ returns (some (0, m, s')))
        × (edges_of (pos last_shard) m ≡ [])
  unfolding read_phase
  read_phase_misses_last fuel batch n s p le ne pb f u =
      let (rs, divided, short) = division_misses_last n p le ne in
      let (ms, s', done, same, edges, count) = ranges_lem law fuel batch rs s pb f in
      (
        combine_key_maps ms,
        s',
        rw (divided, done) refl,
        (combine_key_maps_lem (pos last_shard) ms).0
            ∙ edges (pos last_shard)
            ∙ none_in_ranges rs (law.table s) short u,
      )
