-- ===== src/ReadPhase/Whole.antt =====
-- What the batch reads of all threads bring together.
use taobench.Prelude.{
  ℕ, zero, suc, ◌*◌, ◌%◌, ◌≤◌, ◌<◌, ℤ, pos, negsuc, true, not, List, [], ◌∷◌, ◌++◌, All, some, ◌≡◌,
  ◌≢◌, refl, sym, ap, ◌∙◌, arith, length, subst, append-nil, dec_lt, Bool-cases, inl, inr,
}
use taobench.Db.{Edge, type_value, returns}
use taobench.Database.{Database}
use taobench.Keys.{num_shards, shard_unit}
use taobench.Keys.Coverage.{IsChain, division_exact}
use taobench.Loader.{ShardMap}
use taobench.Loader.Order.{Key, key, key_lt, key_lt_asymm, select, IsSorted}
use taobench.Loader.BatchRead.{ReadsPages, edges_of, of_shard}
use taobench.Workload.{combine_key_maps, get_num_loaded_edges}
use taobench.Workload.Loaded.{combine_key_maps_lem}
use taobench.ReadPhase.{read_phase}
use taobench.ReadPhase.Ranges.{at, all_found, ranges_lem}
use taobench.ReadPhase.Split.{Avoids, select-split}

at-lt : (m n : ℕ) → m < n → key_lt (at m) (at n) ≡ true
unfolding key_lt
at-lt m n h = ground arith

nothing_between : (a : Key) (es : List Edge) → select a a es ≡ []
unfolding select
nothing_between a [] = refl
nothing_between a (e ∷ es) = elim (Bool-cases (key_lt a (key e))) [
  | inl h ↦ rw (h, key_lt_asymm a (key e) h) (nothing_between a es)
  | inr h ↦ rw h (nothing_between a es)
]

-- An edge whose second node is not 0.
abbrev pub HasRemote : Edge → Type 0
HasRemote e = e.remote_key ≢ pos 0

one_side : (a b c : ℤ) (n : ℕ) → b ≢ pos 0 → key_lt (a, b, c) (at n) ≡ not (key_lt (at n) (a, b, c))
unfolding key_lt
one_side (pos k) (pos zero) c n h = absurd (h refl)
one_side (pos k) (pos (suc b)) c n h = ground arith
one_side (pos k) (negsuc b) c n h = ground arith
one_side (negsuc k) b c n h = ground arith

pub HasRemote-Avoids : (b : ℕ) (es : List Edge) → All HasRemote es → Avoids (at b) es
HasRemote-Avoids b [] h = tt
HasRemote-Avoids b (e ∷ es) (h, hs) =
    (one_side e.primary_key e.remote_key (type_value e.type) b h, HasRemote-Avoids b es hs)

IsChain-le : (a c : ℕ) (rs : List (ℕ × ℕ)) → IsChain a rs c → a ≤ c
IsChain-le a c [] h = omega arith
IsChain-le a c ((start, end) ∷ rs) (e, lt, h) = omega (arith, IsChain-le end c rs h)

-- The edges of a range and those of the ranges after it.
range_split :
    (a b c : ℕ) (es : List Edge)
    → a < b
    → b ≤ c
    → IsSorted es
    → All HasRemote es
    → select (at a) (at b) es ++ select (at b) (at c) es ≡ select (at a) (at c) es
range_split a b c es lt le s h = elim (dec_lt b c) [
  | yes more ↦
      select-split (at a) (at b) (at c) es (at-lt a b lt) (at-lt b c more) s
        (HasRemote-Avoids b es h)
  | no last ↦
      (let same : b ≡ c = omega arith in
        subst (λ x. select (at a) (at b) es ++ select (at b) (at x) es ≡ select (at a) (at x) es)
          same (ap (λ x. select (at a) (at b) es ++ x) (nothing_between (at b) es) ∙ append-nil _))
]

-- The ranges of a chain have all edges from its first key to its last.
found_chain :
    (a c : ℕ) (rs : List (ℕ × ℕ)) (es : List Edge)
    → IsSorted es
    → All HasRemote es
    → IsChain a rs c
    → all_found rs es ≡ select (at a) (at c) es
found_chain a c [] es s h ch =
    sym (subst (λ x. select (at a) (at x) es ≡ []) ch (nothing_between (at a) es))
found_chain a c ((start, end) ∷ rs) es s h (e, lt, ch) =
    ap (λ x. select (at start) (at end) es ++ x) (found_chain end c rs es s h ch)
    ∙ subst
        (λ x. select (at start) (at end) es ++ select (at end) (at c) es ≡ select (at x) (at c) es)
        e (range_split start end c es lt (IsChain-le end c rs ch) s h)

module _ {db : Database} (law : ReadsPages db) where
  -- If the number of threads, from 1 to 50, divides the number of shards, and no edge of the table has
  -- the second node 0: with pages of at least one row and more fuel than the table has edges, the
  -- batch reads of all threads return that no operation has failed, and leave the table as it is.
  -- For every shard the workload's map has exactly the edges of the table from the first key of the
  -- first shard to the end of the last whose first node the shard generated, in the order of the
  -- keys, none of them twice, and it counts as many edges as there are between the two keys.
  pub read_phase_lem :
      (fuel batch num_threads : ℕ) (s : db.State)
      → 0 < num_threads
      → num_threads ≤ num_shards
      → num_shards % num_threads ≡ 0
      → 0 < batch
      → length (law.table s) < fuel
      → All HasRemote (law.table s)
      → (m : ShardMap) × (s' : db.State) × (read_phase db fuel batch num_threads s
          ≡ returns (some (0, m, s')))
        × (law.table s' ≡ law.table s)
        × ((shard : ℤ)
            → edges_of shard m
              ≡ of_shard shard (select (at 0) (at (num_shards * shard_unit)) (law.table s)))
        × (get_num_loaded_edges m
            ≡ length (select (at 0) (at (num_shards * shard_unit)) (law.table s)))
  unfolding read_phase
  read_phase_lem fuel batch n s p le divides pb f h =
      let (rs, divided, chain) = division_exact n p le divides in
      let (ms, s', done, same, edges, count) = ranges_lem law fuel batch rs s pb f in
      let whole = found_chain 0 (num_shards * shard_unit) rs (law.table s) (law.sorted s) h chain in
      (
        combine_key_maps ms,
        s',
        rw (divided, done) refl,
        same,
        λ shard. (combine_key_maps_lem shard ms).0 ∙ edges shard ∙ ap (of_shard shard) whole,
        (combine_key_maps_lem (pos 0) ms).1 ∙ count ∙ ap length whole,
      )
