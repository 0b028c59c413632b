-- ===== src/Spanner/Intervals.antt =====
-- The interval of keys that Spanner's batch read selects.
use taobench.Prelude.{ℤ, Bytes, Bool, ◌&&◌, List, ◌≡◌, arith, ==ℤ_comm}
use taobench.Db.{EdgeRow, edge_key, edge_key_values, Field}
use taobench.Loader.Order.{Key, key_lt}
use taobench.Sql.{satisfies}
use taobench.Spanner.Statements.{get_batch_read_sql}
use taobench.Spanner.Guards.{finds}

-- The rows that the statement of the batch read selects, before the order and the limit.
unfoldable pub in_batch : (Bytes → ℤ) → List Field → List Field → ℤ → EdgeRow → Bool
in_batch to_number floor ceiling n r = finds to_number (get_batch_read_sql floor ceiling n) r

abbrev pub fields_of : Key → List Field
fields_of (a, b, c) = edge_key a b c

-- The statement of the batch read selects exactly the rows whose key (id1, id2, type) lies strictly
-- between the floor and the ceiling in the lexicographic order, whatever the number of rows asked for.
pub spanner_batch_interval :
    (to_number : Bytes → ℤ) (lo hi : Key) (n : ℤ) (r : EdgeRow)
    → in_batch to_number (fields_of lo) (fields_of hi) n r
      ≡ (key_lt lo (r.id1, r.id2, r.type) && key_lt (r.id1, r.id2, r.type) hi)
unfolding in_batch edge_key_values get_batch_read_sql satisfies key_lt
spanner_batch_interval to_number (a, b, c) (a', b', c') n r =
    ground (arith, ==ℤ_comm r.id1 a, ==ℤ_comm r.id2 b, ==ℤ_comm r.id1 a', ==ℤ_comm r.id2 b')
