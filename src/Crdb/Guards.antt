-- ===== src/Crdb/Guards.antt =====
-- The guards of CockroachDB's inserts, prepared and written out, and the interval of its batch read.
use taobench.Prelude.{
  ℤ, Bytes, Bool, ◌&&◌, ◌||◌, List, [], ◌∷◌, Option, none, some, ◌≡◌, arith, refl, ==ℤ_comm,
}
use taobench.Db.{
  Edge, EdgeType, EdgeRow, type_value, cast_edge_type, edge_key_values, TimestampValue,
}
use taobench.Db.Incompatible.{excludes, keys_by_type}
use taobench.Loader.Order.{Key, key_lt}
use taobench.Sql.{Statement, Value, int, text, satisfies}
use taobench.MySql.Guards.{is_missed}
use taobench.Pq.Find.{finds, finds_any}
use taobench.Pq.Operations.{Prepared, prepared_as, bind_from, insert_name}
use taobench.Crdb.Statements.{prepared, batch_read_statement}
use taobench.Crdb.Batch.{insert_edge_statement}

abbrev pub by_name : Prepared → Option Bytes → Option Statement
by_name stmts none = none
by_name stmts (some name) = prepared_as name stmts

-- The parameters of `DoInsert` for an edge.
abbrev pub insert_values_of : Edge → TimestampValue → List Value
insert_values_of e tv =
    int e.primary_key
    ∷ int e.remote_key
    ∷ int (type_value e.type)
    ∷ int tv.timestamp
    ∷ text tv.value
    ∷ []

-- Whether the row stops the insert of the edge, by the prepared statements of a driver.
unfoldable pub stops : Prepared → (Bytes → ℤ) → TimestampValue → Edge → EdgeRow → Bool
unfolding prepared_as bind_from insert_name
stops stmts to_number tv e r =
    finds_any to_number (bind_from 1 (insert_values_of e tv))
      (by_name stmts (insert_name (some e.type))) r

-- The same, by the text that a batched transaction writes.
unfoldable pub stops_batched : (Bytes → ℤ) → TimestampValue → Edge → EdgeRow → Bool
stops_batched to_number tv e r =
    finds_any to_number []
      (insert_edge_statement e.primary_key e.remote_key (type_value e.type) tv
        (cast_edge_type (type_value e.type)))
      r

guard_at :
    (to_number : Bytes → ℤ) (tv : TimestampValue) (p q : ℤ) (t : EdgeType) (r : EdgeRow)
    → let e : Edge = record { primary_key = p; remote_key = q; type = t } in
      excludes e r ≡ (stops prepared to_number tv e r || is_missed e r)
unfolding excludes stops is_missed keys_by_type edge_key_values cast_edge_type type_value prepared
    satisfies
guard_at to_number tv p q EdgeType.unique r = ground arith
guard_at to_number tv p q EdgeType.bidirectional r = ground arith
guard_at to_number tv p q EdgeType.unique_and_bidirectional r = ground arith
guard_at to_number tv p q EdgeType.other r = ground arith

batched_at :
    (to_number : Bytes → ℤ) (tv : TimestampValue) (p q : ℤ) (t : EdgeType) (r : EdgeRow)
    → let e : Edge = record { primary_key = p; remote_key = q; type = t } in
      stops_batched to_number tv e r ≡ stops prepared to_number tv e r
unfolding stops stops_batched cast_edge_type type_value prepared satisfies insert_edge_statement
batched_at to_number tv p q EdgeType.unique r = refl
batched_at to_number tv p q EdgeType.bidirectional r = refl
batched_at to_number tv p q EdgeType.unique_and_bidirectional r = refl
batched_at to_number tv p q EdgeType.other r = refl

-- A row is incompatible with the candidate exactly if the condition of its prepared insert finds the
-- row, or the candidate is bidirectional and the row is its unique reverse edge; and the text that a
-- batched transaction writes for the insert finds the same rows as the prepared statement.
pub crdb_guard :
    (to_number : Bytes → ℤ) (tv : TimestampValue) (e : Edge) (r : EdgeRow)
    → (excludes e r ≡ (stops prepared to_number tv e r || is_missed e r))
      × (stops_batched to_number tv e r ≡ stops prepared to_number tv e r)
crdb_guard to_number tv e r = (
  guard_at to_number tv e.primary_key e.remote_key e.type r,
  batched_at to_number tv e.primary_key e.remote_key e.type r,
)

abbrev pub key_values : Key → Key → ℤ → List Value
key_values (a, b, c) (a', b', c') n = int a ∷ int b ∷ int c ∷ int a' ∷ int b' ∷ int c' ∷ int n ∷ []

-- The rows that the batch read selects, before its limit.
unfoldable pub in_batch : (Bytes → ℤ) → Key → Key → ℤ → EdgeRow → Bool
unfolding bind_from
in_batch to_number lo hi n r =
    finds to_number (bind_from 1 (key_values lo hi n)) batch_read_statement r

-- The statement of the batch read selects exactly the rows whose key lies strictly between the two
-- keys in the lexicographic order.
pub crdb_batch_interval :
    (to_number : Bytes → ℤ) (lo hi : Key) (n : ℤ) (r : EdgeRow)
    → in_batch to_number lo hi n r
      ≡ (key_lt lo (r.id1, r.id2, r.type) && key_lt (r.id1, r.id2, r.type) hi)
unfolding in_batch batch_read_statement satisfies key_lt
crdb_batch_interval to_number (a, b, c) (a', b', c') n r =
    ground (arith, ==ℤ_comm r.id1 a, ==ℤ_comm r.id2 b, ==ℤ_comm r.id1 a', ==ℤ_comm r.id2 b')
