-- ===== src/ReadPhase/Ranges.antt =====
-- What the loaders read, whatever their ranges are.
use taobench.Prelude.{
  ℕ, ◌<◌, ℤ, pos, List, [], ◌∷◌, ◌++◌, some, ◌≡◌, refl, sym, ap, ◌∙◌, arith, length, length-append,
}
use taobench.Db.{Edge, returns}
use taobench.Database.{Database}
use taobench.Loader.{ShardMap, new_loader}
use taobench.Loader.Order.{Key, select}
use taobench.Loader.BatchRead.{ReadsPages, add_all, of_shard, batch_read_map}
use taobench.Workload.{get_num_loaded_edges}
use taobench.Workload.Loaded.{all_gathered, total}
use taobench.ReadPhase.{read_ranges}
use taobench.ReadPhase.Split.{length-select}
use taobench.ReadPhase.Maps.{gathered-add_all, num-add_all, of_shard-append}

-- The key at which the range of a loader starts or ends.
abbrev pub at : ℕ → Key
at n = (pos n, pos 0, pos 0)

-- The edges between the two keys of each range, one range after another.
abbrev pub all_found : List (ℕ × ℕ) → List Edge → List Edge
all_found [] es = []
all_found ((start, end) ∷ rs) es = select (at start) (at end) es ++ all_found rs es

module _ {db : Database} (law : ReadsPages db) where
  pub ranges_lem :
      (fuel n : ℕ) (rs : List (ℕ × ℕ)) (s : db.State)
      → 0 < n
      → length (law.table s) < fuel
      → (ms : List ShardMap) × (s' : db.State) × (read_ranges db fuel n rs s
          ≡ returns (some (0, ms, s')))
        × (law.table s' ≡ law.table s)
        × ((shard : ℤ) → all_gathered shard ms ≡ of_shard shard (all_found rs (law.table s)))
        × (total ms ≡ length (all_found rs (law.table s)))
  unfolding read_ranges new_loader get_num_loaded_edges
  ranges_lem fuel n [] s p f = ([], s, refl, refl, λ shard. refl, refl)
  ranges_lem fuel n ((start, end) ∷ rs) s p f =
      let es = law.table s in
      let found = select (at start) (at end) es in
      let (s₁, done, same) =
        batch_read_map law fuel n (new_loader (pos start) (pos end)) s p
          (omega (arith, length-select (at start) (at end) es)) in
      let (ms, s₂, rest, same', edges', count') = ranges_lem fuel n rs s₁ p (rw same f) in
      (
        add_all found [] ∷ ms,
        s₂,
        rw (done, rest) refl,
        same' ∙ same,
        λ shard. rw (gathered-add_all shard found) (
            ap (λ x. of_shard shard found ++ x)
              (edges' shard ∙ ap (λ x. of_shard shard (all_found rs x)) same)
            ∙ sym (of_shard-append shard found (all_found rs es))),
        omega (
          arith,
          num-add_all found [],
          count' ∙ ap (λ x. length (all_found rs x)) same,
          length-append found (all_found rs es),
        ),
      )
