-- ===== src/Spanner/Pages.antt =====
-- Spanner as the database of the loader's batch read.
use taobench.Prelude.{
  ℕ, ◌<◌, ℤ, pos, Bytes, List, [], ◌∷◌, ◌++◌, length, take, map, some, none, ◌≡◌, refl, ap, ◌∙◌,
  true,
}
use taobench.Db.{edges, Field, Edge, k_ok, returns, edge_key_values}
use taobench.Db.Incompatible.{key_of}
use taobench.Database.{Database}
use taobench.Sql.{Where, Operand, scan, satisfies, operand_value, int, Bindings}
use taobench.Loader.{ShardMap, Loader}
use taobench.Loader
use taobench.Loader.Order.{Key, key, select, IsSorted}
use taobench.Loader.BatchRead.{ReadsPages, key_row, edges_of, of_shard, batch_read_lem}
use taobench.Loader.Scans.{Stored, edges_in, found_edges, found_edges-select}
use taobench.Spanner.Statements.{get_batch_read_sql, batch_bindings}
use taobench.Spanner.Statements
use taobench.Spanner.Client.{SpannerClient}
use taobench.Spanner.Driver.{execute, batch_insert, batch_read, scan_status, key_fields}
use taobench.Spanner.Transactions.{execute_transaction}
use taobench.Spanner.Intervals.{in_batch, spanner_batch_interval}

-- The driver as a database.
abbrev pub spanner_database : SpannerClient → Database
spanner_database client = record {
  State = client.State;
  execute = execute client;
  execute_transaction = execute_transaction client;
  batch_insert = batch_insert client;
  batch_read = λ t lo hi n buffer s. batch_read client t lo hi (pos n) buffer s;
}

-- The documented answer to an ordered and limited query on the table of edges, whose rows stand in the
-- order of its primary key: the first rows that the condition finds.
pub record AnswersScans (client : SpannerClient) (to_number : Bytes → ℤ) : Type 0 where
  pub stored : client.State → List Stored
  pub sorted : (s : client.State) → IsSorted (edges_in (stored s))
  pub answers :
      (w : Where) (limit : Operand) (bs : Bindings) (n : ℕ) (s : client.State)
      → operand_value bs limit ≡ some (int (pos n))
      → client.query (scan w true limit, bs) s
        ≡ (map key (take n (found_edges (satisfies to_number bs w) (stored s))), none)

key_fields-key : (es : List Edge) → map key_fields (map key es) ≡ map key_of es
key_fields-key [] = refl
key_fields-key (e ∷ es) = ap (◌∷◌ (key_of e)) (key_fields-key es)

module _ {client : SpannerClient} {to_number : Bytes → ℤ}
    (law : AnswersScans client to_number) where
  open law use {stored, sorted, answers}

  abbrev pub table : client.State → List Edge
  table s = edges_in (stored s)

  query_answers :
      (lo hi : Key) (n : ℕ) (s : client.State)
      → client.query (Statements.batch_read, batch_bindings lo hi (pos n)) s
        ≡ (map key (take n (select lo hi (table s))), none)
  unfolding Statements.batch_read batch_bindings in_batch get_batch_read_sql edge_key_values
      operand_value
  query_answers lo hi n s =
      answers _ _ (batch_bindings lo hi (pos n)) n s refl
      ∙ ap (λ es. (map key (take n es), none))
          (found_edges-select (in_batch to_number (key_row lo) (key_row hi) (pos n)) lo hi
            (spanner_batch_interval to_number lo hi (pos n)) (stored s))

  pub batch_read-answers :
      (lo hi : Key) (n : ℕ) (buffer : List (List Field)) (s : client.State)
      → batch_read client edges (key_row lo) (key_row hi) (pos n) buffer s
        ≡ returns (k_ok, buffer ++ map key_of (take n (select lo hi (table s))), s)
  unfolding batch_read get_batch_read_sql edge_key_values scan_status
  batch_read-answers lo hi n buffer s =
      rw (query_answers lo hi n s, key_fields-key (take n (select lo hi (table s)))) refl

  abbrev pub spanner_pages : ReadsPages (spanner_database client)
  spanner_pages = record {
    table = table;
    sorted = sorted;
    reads = λ lo hi n s. (s, batch_read-answers lo hi n [] s, refl);
  }

  -- Over a Spanner that answers an ordered query as documented, with pages of at least one row and
  -- more fuel than there are edges strictly between its two keys, the loader's batch read returns
  -- that no operation has failed. It has added to each shard of the map exactly the edges of the
  -- table between the keys whose first id the shard generated, in the order of the keys, whatever
  -- the size of a page.
  pub spanner_batch_read :
      (fuel n : ℕ) (l : Loader) (s : client.State)
      → 0 < n
      → length (select (l.start_key, pos 0, pos 0) (l.end_key, pos 0, pos 0) (table s)) < fuel
      → (m : ShardMap) × (s' : client.State) × (Loader.batch_read
            (spanner_database client)
            fuel
            n
            l
            s
          ≡ returns (some (0, record l { shard_to_edges = m }, s')))
        × ((shard : ℤ)
            → edges_of shard m
              ≡ edges_of shard l.shard_to_edges
                ++ of_shard shard
                    (select (l.start_key, pos 0, pos 0) (l.end_key, pos 0, pos 0) (table s)))
  spanner_batch_read fuel n l s p h =
      let (m, s', done, same, shards) = batch_read_lem spanner_pages fuel n l s p h in
      (m, s', done, shards)
