-- ===== src/Spanner/BatchInserts.antt =====
-- The driver for Spanner inserts batches as the loader expects.
use taobench.Prelude.{
  ℤ, Bytes, List, [], ◌∷◌, ◌++◌, map, All, length, Option, none, some, ◌≡◌, refl, ap, ◌∙◌, arith,
}
use taobench.Db.{
  DataTable, edges, objects, Field, TimestampValue, Status, k_ok, edge_key, object_key, returns,
  edge_key_values, object_key_value,
}
use taobench.Database.{IsKey}
use taobench.Loader.Buffers.{Row, rows_of, InsertsBatches}
use taobench.Spanner.Client.{SpannerClient}
use taobench.Spanner.Driver.{batch_insert, batch_status, mutation_rows}
use taobench.Spanner.Pages.{spanner_database}

-- A row of a mutation as a row of the loader.
abbrev key_of_values : DataTable → List ℤ → List Field
key_of_values edges (a ∷ b ∷ c ∷ []) = edge_key a b c
key_of_values objects (i ∷ []) = object_key i
key_of_values _ _ = []

abbrev row_of_values : DataTable → List ℤ × TimestampValue → Row
row_of_values t (vs, tv) = (key_of_values t vs, tv)

-- A commit of an insert mutation as Spanner documents it: a success has added the rows, and the other
-- table is as it was.
pub record AddsRows (client : SpannerClient) : Type 0 where
  pub stored : DataTable → client.State → List (List ℤ × TimestampValue)
  pub adds :
      (t : DataTable) (rows : List (List ℤ × TimestampValue)) (s : client.State)
      → (client.commit_rows t rows s).0 ≡ none
      → stored t (client.commit_rows t rows s).1 ≡ stored t s ++ rows
  pub keeps_objects :
      (rows : List (List ℤ × TimestampValue)) (s : client.State)
      → stored objects (client.commit_rows edges rows s).1 ≡ stored objects s
  pub keeps_edges :
      (rows : List (List ℤ × TimestampValue)) (s : client.State)
      → stored edges (client.commit_rows objects rows s).1 ≡ stored edges s

map-append-rows :
    (t : DataTable) (xs ys : List (List ℤ × TimestampValue))
    → map (row_of_values t) (xs ++ ys) ≡ map (row_of_values t) xs ++ map (row_of_values t) ys
map-append-rows t [] ys = refl
map-append-rows t (x ∷ xs) ys = ap (◌∷◌ (row_of_values t x)) (map-append-rows t xs ys)

abbrev HasRows : DataTable → List (List Field) → List TimestampValue → Type 0
HasRows t ks vs =
    (rows : List (List ℤ × TimestampValue)) × (mutation_rows t ks vs ≡ returns rows)
    × (map (row_of_values t) rows ≡ rows_of ks vs)

one_more :
    (t : DataTable) (k : List Field) (v : TimestampValue) (ks : List (List Field))
    (vs : List TimestampValue)
    → IsKey t k
    → HasRows t ks vs
    → HasRows t (k ∷ ks) (v ∷ vs)
unfolding mutation_rows edge_key_values object_key_value
one_more t k v ks vs (IsKey.edge a b c) (rows, made, same) =
    ((a ∷ b ∷ c ∷ [], v) ∷ rows, rw made refl, ap (◌∷◌ (edge_key a b c, v)) same)
one_more t k v ks vs (IsKey.object i) (rows, made, same) =
    ((i ∷ [], v) ∷ rows, rw made refl, ap (◌∷◌ (object_key i, v)) same)

mutation_rows-HasRows :
    (t : DataTable) (ks : List (List Field)) (vs : List TimestampValue)
    → All (IsKey t) ks
    → length ks ≡ length vs
    → HasRows t ks vs
unfolding mutation_rows
mutation_rows-HasRows t [] vs well h = ([], refl, refl)
mutation_rows-HasRows t (k ∷ ks) [] well h = absurd (omega arith)
mutation_rows-HasRows t (k ∷ ks) (v ∷ vs) well h =
    one_more t k v ks vs well.0 (mutation_rows-HasRows t ks vs well.1 (omega arith))

module _ (client : SpannerClient) (law : AddsRows client) where
  abbrev table : DataTable → client.State → List Row
  table t s = map (row_of_values t) (law.stored t s)

  abbrev Inserted : DataTable → List Row → client.State → Status → client.State → Type 0
  Inserted t added s status s' =
      (status ≡ k_ok → table t s' ≡ table t s ++ added)
      × (t ≡ edges → table objects s' ≡ table objects s)
      × (t ≡ objects → table edges s' ≡ table edges s)

  batch_status-ok : (r : Option Bytes) → batch_status r ≡ k_ok → r ≡ none
  unfolding batch_status
  batch_status-ok none e = refl
  batch_status-ok (some msg) e = absurd (cc)

  grown :
      (t : DataTable) (rows : List (List ℤ × TimestampValue)) (added : List Row) (s : client.State)
      → map (row_of_values t) rows ≡ added
      → batch_status (client.commit_rows t rows s).0 ≡ k_ok
      → table t (client.commit_rows t rows s).1 ≡ table t s ++ added
  grown t rows added s same e =
      ap (map (row_of_values t)) (law.adds t rows s (batch_status-ok _ e))
      ∙ map-append-rows t (law.stored t s) rows
      ∙ ap (λ x. table t s ++ x) same

  committed :
      (t : DataTable) (rows : List (List ℤ × TimestampValue)) (added : List Row) (s : client.State)
      → map (row_of_values t) rows ≡ added
      → Inserted t added s
          (batch_status (client.commit_rows t rows s).0)
          (client.commit_rows t rows s).1
  committed edges rows added s same = (
    grown edges rows added s same,
    (λ _. ap (map (row_of_values objects)) (law.keeps_objects rows s)),
    (λ e. absurd (cc)),
  )
  committed objects rows added s same = (
    grown objects rows added s same,
    (λ e. absurd (cc)),
    (λ _. ap (map (row_of_values edges)) (law.keeps_edges rows s)),
  )

  pub spanner_inserts : InsertsBatches (spanner_database client)
  unfolding batch_insert
  spanner_inserts = record {
    table = table;
    inserts = λ t ks vs s well h.
        (let (rows, made, same) = mutation_rows-HasRows t ks vs well h in
          let (added, objects_kept, edges_kept) = committed t rows (rows_of ks vs) s same in
          (
            batch_status (client.commit_rows t rows s).0,
            (client.commit_rows t rows s).1,
            rw made refl,
            added,
            objects_kept,
            edges_kept,
          ));
  }
