-- ===== src/Spanner/Guards.antt =====
-- The guards of Spanner's inserts, on a row of the table of edges.
use taobench.Prelude.{ℤ, Bytes, Bool, false, ◌≡◌, arith}
use taobench.Db.{
  Edge, EdgeType, EdgeRow, type_value, cast_edge_type, edge_key_values, TimestampValue, Outcome,
  returns, faults,
}
use taobench.Db.Incompatible.{excludes, keys_by_type, key_of}
use taobench.Sql.{insert_unless, scan, satisfies}
use taobench.Spanner.Statements.{Bound, get_insert_edge_sql}

abbrev pub statement_finds : (Bytes → ℤ) → Bound → EdgeRow → Bool
statement_finds to_number (insert_unless os w, bs) r = satisfies to_number bs w r
statement_finds to_number (scan w ordered n, bs) r = satisfies to_number bs w r
statement_finds to_number (_, bs) r = false

abbrev pub finds : (Bytes → ℤ) → Outcome Bound → EdgeRow → Bool
finds to_number (returns b) r = statement_finds to_number b r
finds to_number (faults f) r = false

-- Whether the row stops the insert of the edge, by the statement that the driver sends.
unfoldable pub stops : (Bytes → ℤ) → TimestampValue → Edge → EdgeRow → Bool
stops to_number tv e r = finds to_number (get_insert_edge_sql (key_of e) tv) r

stops_at :
    (to_number : Bytes → ℤ) (tv : TimestampValue) (p q : ℤ) (t : EdgeType) (r : EdgeRow)
    → excludes (record { primary_key = p; remote_key = q; type = t }) r
      ≡ stops to_number tv (record { primary_key = p; remote_key = q; type = t }) r
unfolding excludes stops keys_by_type edge_key_values cast_edge_type type_value get_insert_edge_sql
    satisfies
stops_at to_number tv p q EdgeType.unique r = ground arith
stops_at to_number tv p q EdgeType.bidirectional r = ground arith
stops_at to_number tv p q EdgeType.unique_and_bidirectional r = ground arith
stops_at to_number tv p q EdgeType.other r = ground arith

-- For every kind of edge the condition of the statement that the driver sends finds exactly the rows
-- that are incompatible with the edge by `GetIncompatibleKeys`.
pub spanner_guard :
    (to_number : Bytes → ℤ) (tv : TimestampValue) (e : Edge) (r : EdgeRow)
    → excludes e r ≡ stops to_number tv e r
spanner_guard to_number tv e r = stops_at to_number tv e.primary_key e.remote_key e.type r
