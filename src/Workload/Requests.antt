-- ===== src/Workload/Requests.antt =====
-- What the workload relies on, and the edges that it draws.
use taobench.Prelude.{
  ℕ, zero, suc, ◌<◌, ℤ, pos, Bytes, codes, List, [], ◌∷◌, length, Option, some, none, Bool, true,
  false, ◌≡◌, refl, arith,
}
use taobench.Db.{TimestampValue, Operation, Outcome, returns, Edge}
use taobench.Database.{IsKey}
use taobench.Workload.{
  Source, Workload, Run, element, find_shard, read_line, write_line, write_kind, operation_for,
  choose_edge, get_random_edge,
}

-- What the source and the configuration give: an index below the one that was asked for, entries that
-- are there, names of writes that are known, and within the fuel a shard that has edges.
module _ (source : Source) (w : Workload) where
  open source use {State, draw, below}

  abbrev primary : State → ℕ × State
  primary s = draw (codes "primary_shards") s

  pub data Hits : ℕ → State → Type 0 where
    found :
        {fuel : ℕ} {s : State} (e : Edge) (es : List Edge)
        → find_shard (pos (primary s).0) w.shard_to_edges ≡ some (e ∷ es)
        → Hits (suc fuel) s
    missed :
        {fuel : ℕ} {s : State}
        → find_shard (pos (primary s).0) w.shard_to_edges ≡ none
        → Hits fuel (primary s).1
        → Hits (suc fuel) s

  pub record IsConfigured (fuel : ℕ) : Type 0 where
    pub chooses : (n : ℕ) (s : State) → (below (suc n) s).0 < suc n
    pub hits : (s : State) → Hits fuel s
    pub read_types :
        (is_txn : Bool) (s : State)
        → (t : Bytes) × (element (w.types (read_line is_txn)) (draw (read_line is_txn) s).0
            ≡ returns t)
    pub write_types :
        (is_txn : Bool) (s : State)
        → (t : Bytes) × (o : Operation) × (element
              (w.types (write_line is_txn))
              (draw (write_line is_txn) s).0
            ≡ returns t)
          × (write_kind t ≡ returns o)
    pub edge_types :
        (s : State)
        → (t : Bytes) × (element (w.types (codes "edge_types")) (draw (codes "edge_types") s).0
            ≡ returns t)
    pub read_sizes :
        (s : State)
        → (v : ℤ) × (element (w.vals (codes "read_txn_sizes")) (draw (codes "read_txn_sizes") s).0
            ≡ returns v)
    pub write_sizes :
        (s : State)
        → (v : ℤ) × (element (w.vals (codes "write_txn_sizes")) (draw (codes "write_txn_sizes") s).0
            ≡ returns v)

-- The edge stands in the list of a shard.
abbrev pub IsLoaded : Workload → Edge → Type 0
IsLoaded w e =
    (shard : ℤ) × (es : List Edge) × (i : ℕ) × (find_shard shard w.shard_to_edges ≡ some es)
    × (element es i ≡ returns e)

pub element-below :
    {A : Type 0} (xs : List A) (i : ℕ) → i < length xs → (a : A) × (element xs i ≡ returns a)
unfolding element
element-below [] i h = absurd (omega arith)
element-below (x ∷ xs) zero h = (x, refl)
element-below (x ∷ xs) (suc i) h = element-below xs i (omega arith)

pub operation_for-IsKey :
    (b : Bool) (e : Edge) (tv : TimestampValue) (o : Operation)
    → let op = operation_for b e tv o in IsKey op.table op.key
unfolding operation_for
operation_for-IsKey true e tv o = IsKey.edge _ _ _
operation_for-IsKey false e tv o = IsKey.object _

pub operation_for-operation :
    (b : Bool) (e : Edge) (tv : TimestampValue) (o : Operation)
    → (operation_for b e tv o).operation ≡ o
unfolding operation_for
operation_for-operation true e tv o = refl
operation_for-operation false e tv o = refl

module _ (source : Source) (w : Workload) (fuel : ℕ) (conf : IsConfigured source w fuel) where
  open conf use {chooses, hits, read_types, write_types, edge_types, read_sizes, write_sizes}

  abbrev pub Chosen : Outcome (Option (Edge × Run source w)) → Type 0
  Chosen x = (e : Edge) × (r : Run source w) × (x ≡ returns (some (e, r))) × IsLoaded w e

  choose_edge-returns :
      (shard : ℤ) (e : Edge) (es : List Edge) (r : Run source w)
      → find_shard shard w.shard_to_edges ≡ some (e ∷ es)
      → Chosen (choose_edge source w (e ∷ es) r)
  unfolding choose_edge
  choose_edge-returns shard e es (s, n) h =
      let i = (source.below (suc (length es)) s).0 in
      let (chosen, at) = element-below (e ∷ es) i (chooses (length es) s) in
      (chosen, ((source.below (suc (length es)) s).1, n), rw at refl, (shard, e ∷ es, i, h, at))

  pub get_random_edge-returns :
      (k : ℕ) (s : source.State) (n : ℕ)
      → Hits source w k s
      → Chosen (get_random_edge source w k (s, n))
  unfolding get_random_edge
  get_random_edge-returns zero s n h = elim h [ ]
  get_random_edge-returns (suc k) s n (Hits.found e es h) =
      let (c, r, done, loaded) = choose_edge-returns _ e es ((primary source w s).1, n) h in
      (c, r, rw (h, get_random_edge) done, loaded)
  get_random_edge-returns (suc k) s n (Hits.missed h more) =
      let (c, r, done, loaded) = get_random_edge-returns k (primary source w s).1 n more in
      (c, r, rw (h, get_random_edge) done, loaded)
