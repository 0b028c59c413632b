-- ===== src/Yugabyte/Guards.antt =====
-- The guards of YugabyteDB's inserts, and the interval of its batch read.
use taobench.Prelude.{ℤ, Bytes, Bool, ◌&&◌, ◌||◌, ◌≡◌, arith, refl, ==ℤ_comm}
use taobench.Db.{Edge, EdgeRow, TimestampValue}
use taobench.Db.Incompatible.{excludes}
use taobench.Loader.Order.{Key, key_lt}
use taobench.Sql.{satisfies}
use taobench.MySql.Guards.{is_missed}
use taobench.Pq.Find.{finds}
use taobench.Pq.Operations.{bind_from}
use taobench.Crdb.Statements
use taobench.Crdb.Guards.{stops, crdb_guard, key_values}
use taobench.Yugabyte.Statements.{prepared, batch_read_statement}

-- The rows that the batch read selects, before its limit.
unfoldable pub in_batch : (Bytes → ℤ) → Key → Key → ℤ → EdgeRow → Bool
unfolding bind_from
in_batch to_number lo hi n r =
    finds to_number (bind_from 1 (key_values lo hi n)) batch_read_statement r

-- The statement selects exactly the rows whose key lies strictly between the two keys in the
-- lexicographic order.
pub yugabyte_batch_interval :
    (to_number : Bytes → ℤ) (lo hi : Key) (n : ℤ) (r : EdgeRow)
    → in_batch to_number lo hi n r
      ≡ (key_lt lo (r.id1, r.id2, r.type) && key_lt (r.id1, r.id2, r.type) hi)
unfolding in_batch batch_read_statement satisfies key_lt
yugabyte_batch_interval to_number (a, b, c) (a', b', c') n r =
    ground (arith, ==ℤ_comm r.id1 a, ==ℤ_comm r.id2 b)

same_statements : prepared ≡ Statements.prepared
unfolding prepared Statements.prepared
same_statements = refl

-- A row is incompatible with the candidate exactly if the condition of its prepared insert finds the
-- row, or the candidate is bidirectional and the row is its unique reverse edge.
pub yugabyte_guard :
    (to_number : Bytes → ℤ) (tv : TimestampValue) (e : Edge) (r : EdgeRow)
    → excludes e r ≡ (stops prepared to_number tv e r || is_missed e r)
yugabyte_guard to_number tv e r = rw same_statements (crdb_guard to_number tv e r).0
