-- ===== src/Loader/Buffers.antt =====
-- The buffers of the batch insert: their bounds, and that no row is lost or written twice.
use taobench.Prelude.{
  ℕ, ◌≤◌, List, [], ◌∷◌, ◌++◌, length, Bool, true, false, ◌≡◌, refl, ap, arith, append-nil, All,
}
use taobench.Db.{DataTable, edges, objects, Field, TimestampValue, Status, k_ok, returns}
use taobench.Database.{Database, IsKey}
use taobench.Loader.{Loader, failed, flush_edges_if, flush_objects_if}

abbrev pub Row : Type 0
Row = List Field × TimestampValue

-- The rows of a batch: the i-th value belongs to the i-th key.
abbrev pub rows_of : List (List Field) → List TimestampValue → List Row
rows_of [] vs = []
rows_of (k ∷ ks) [] = []
rows_of (k ∷ ks) (v ∷ vs) = (k, v) ∷ rows_of ks vs

pub rows_of-snoc :
    (ks : List (List Field)) (vs : List TimestampValue) (k : List Field) (v : TimestampValue)
    → length ks ≡ length vs
    → rows_of (ks ++ k ∷ []) (vs ++ v ∷ []) ≡ rows_of ks vs ++ (k, v) ∷ []
rows_of-snoc [] [] k v h = refl
rows_of-snoc [] (w ∷ vs) k v h = absurd (omega arith)
rows_of-snoc (j ∷ ks) [] k v h = absurd (omega arith)
rows_of-snoc (j ∷ ks) (w ∷ vs) k v h = ap (◌∷◌ (j, w)) (rows_of-snoc ks vs k v (omega arith))

-- What the loader relies on: a batch insert of well-formed keys, each with its value, returns, and if
-- its status is a success has added the rows of the batch to its table. The other table stays as it
-- is. Spanner/BatchInserts fills it with the driver for Spanner; MySQL's asserts that the batch is not
-- empty.
pub record InsertsBatches (db : Database) : Type 0 where
  pub table : DataTable → db.State → List Row
  pub inserts :
      (t : DataTable) (ks : List (List Field)) (vs : List TimestampValue) (s : db.State)
      → All (IsKey t) ks
      → length ks ≡ length vs
      → (status : Status) × (s' : db.State) × (db.batch_insert t ks vs s ≡ returns (status, s'))
        × (status ≡ k_ok → table t s' ≡ table t s ++ rows_of ks vs)
        × (t ≡ edges → table objects s' ≡ table objects s)
        × (t ≡ objects → table edges s' ≡ table edges s)

-- Keys are well-formed and go together with their values, and no buffer holds more than a batch.
pub record IsBuffered (n : ℕ) (l : Loader) : Type 0 where
  pub edge_pairs : length l.edge_key_buffer ≡ length l.edge_value_buffer
  pub object_pairs : length l.object_key_buffer ≡ length l.object_value_buffer
  pub edge_keys : All (IsKey edges) l.edge_key_buffer
  pub object_keys : All (IsKey objects) l.object_key_buffer
  pub edge_bound : length l.edge_value_buffer ≤ n
  pub object_bound : length l.object_value_buffer ≤ n

module _ {db : Database} (law : InsertsBatches db) where
  -- The rows of a table followed by those that wait for it.
  abbrev pub edges_so_far : Loader → db.State → List Row
  edges_so_far l s = law.table edges s ++ rows_of l.edge_key_buffer l.edge_value_buffer

  abbrev pub objects_so_far : Loader → db.State → List Row
  objects_so_far l s = law.table objects s ++ rows_of l.object_key_buffer l.object_value_buffer

  -- What a flush does with its buffer, if the test for it holds or not.
  abbrev pub EdgesFlushed : Bool → Loader → db.State → Type 0
  EdgesFlushed b l s =
      (f : ℕ) × (l' : Loader) × (s' : db.State) × (flush_edges_if db b l s ≡ returns (f, l', s'))
      × (length l'.edge_key_buffer ≡ length l'.edge_value_buffer)
      × All (IsKey edges) l'.edge_key_buffer
      × (b ≡ true → l'.edge_value_buffer ≡ [])
      × (b ≡ false → l'.edge_value_buffer ≡ l.edge_value_buffer)
      × (f ≡ 0 → edges_so_far l' s' ≡ edges_so_far l s)
      × (l'.object_key_buffer ≡ l.object_key_buffer)
      × (l'.object_value_buffer ≡ l.object_value_buffer)
      × (law.table objects s' ≡ law.table objects s)

  pub edges_flushed :
      (b : Bool) (l : Loader) (s : db.State)
      → length l.edge_key_buffer ≡ length l.edge_value_buffer
      → All (IsKey edges) l.edge_key_buffer
      → EdgesFlushed b l s
  unfolding flush_edges_if
  edges_flushed false l s h keys =
      (0, l, s, refl, h, keys, (λ e. absurd (cc)), (λ _. refl), (λ _. refl), refl, refl, refl)
  edges_flushed true l s h keys =
      let (status, s', done, added, others, _) =
        law.inserts edges l.edge_key_buffer l.edge_value_buffer s keys h in
      (
        failed status,
        record l { edge_key_buffer = []; edge_value_buffer = [] },
        s',
        rw done refl,
        refl,
        tt,
        (λ _. refl),
        (λ e. absurd (cc)),
        (λ z. rw (append-nil (law.table edges s')) (added (ok_of status z))),
        refl,
        refl,
        others refl,
      )
    where
      ok_of : (status : Status) → failed status ≡ 0 → status ≡ k_ok
      ok_of k_ok z = refl
      ok_of _ z = absurd (omega arith)

  abbrev pub ObjectsFlushed : Bool → Loader → db.State → Type 0
  ObjectsFlushed b l s =
      (f : ℕ) × (l' : Loader) × (s' : db.State) × (flush_objects_if db b l s ≡ returns (f, l', s'))
      × (length l'.object_key_buffer ≡ length l'.object_value_buffer)
      × All (IsKey objects) l'.object_key_buffer
      × (b ≡ true → l'.object_value_buffer ≡ [])
      × (b ≡ false → l'.object_value_buffer ≡ l.object_value_buffer)
      × (f ≡ 0 → objects_so_far l' s' ≡ objects_so_far l s)
      × (l'.edge_key_buffer ≡ l.edge_key_buffer)
      × (l'.edge_value_buffer ≡ l.edge_value_buffer)
      × (law.table edges s' ≡ law.table edges s)

  pub objects_flushed :
      (b : Bool) (l : Loader) (s : db.State)
      → length l.object_key_buffer ≡ length l.object_value_buffer
      → All (IsKey objects) l.object_key_buffer
      → ObjectsFlushed b l s
  unfolding flush_objects_if
  objects_flushed false l s h keys =
      (0, l, s, refl, h, keys, (λ e. absurd (cc)), (λ _. refl), (λ _. refl), refl, refl, refl)
  objects_flushed true l s h keys =
      let (status, s', done, added, _, others) =
        law.inserts objects l.object_key_buffer l.object_value_buffer s keys h in
      (
        failed status,
        record l { object_key_buffer = []; object_value_buffer = [] },
        s',
        rw done refl,
        refl,
        tt,
        (λ _. refl),
        (λ e. absurd (cc)),
        (λ z. rw (append-nil (law.table objects s')) (added (ok_of status z))),
        refl,
        refl,
        others refl,
      )
    where
      ok_of : (status : Status) → failed status ≡ 0 → status ≡ k_ok
      ok_of k_ok z = refl
      ok_of _ z = absurd (omega arith)
