-- ===== src/Spanner/Inserts.antt =====
-- `SpannerDB::Insert` keeps the table of edges consistent, for every kind of edge.
use taobench.Prelude.{ℤ, Bytes, List, [], ◌∷◌, ◌≡◌, refl, ◌∙◌, Option, some}
use taobench.Db.{
  Edge, EdgeType, EdgeRow, type_value, TimestampValue, edges, returns, cast_edge_type,
  edge_key_values, row_of,
}
use taobench.Db.Incompatible.{key_of}
use taobench.Sql.{insert_unless, Operand, Where, Bindings, operand_value, satisfies}
use taobench.Sql.Guard.{
  IsConsistent, InsertsUnless, InsertsUnless-IsConsistent, row_from, values_of,
}
use taobench.Spanner.Statements.{
  inserted_operands, insert_edge_other, insert_edge_unique, insert_edge_bidirectional,
  insert_edge_unique_bi, edge_bindings, get_insert_edge_sql,
}
use taobench.Spanner.Client.{SpannerClient}
use taobench.Spanner.Driver.{insert, commit_status}
use taobench.Spanner.Guards.{spanner_guard, stops}

-- Spanner runs a committed guarded insert as documented: it adds the row of its values or leaves the
-- table, and adds none that its condition excludes.
pub record EdgeClient (client : SpannerClient) (to_number : Bytes → ℤ) : Type 0 where
  pub table : client.State → List EdgeRow
  pub inserts :
      (os : List Operand) (w : Where) (bs : Bindings) (s : client.State)
      → InsertsUnless to_number os w bs
          (table s)
          (table (client.commit ((insert_unless os w, bs) ∷ []) s).1)

abbrev guard : EdgeType → Where
guard EdgeType.other = insert_edge_other
guard EdgeType.unique = insert_edge_unique
guard EdgeType.bidirectional = insert_edge_bidirectional
guard EdgeType.unique_and_bidirectional = insert_edge_unique_bi

abbrev bindings : Edge → TimestampValue → Bindings
bindings e tv = edge_bindings e.primary_key e.remote_key (type_value e.type) tv

row_from-bindings :
    (e : Edge) (tv : TimestampValue)
    → row_from (values_of (bindings e tv) inserted_operands) ≡ some (row_of e tv.timestamp tv.value)
unfolding edge_bindings operand_value row_from
row_from-bindings e tv = refl

guard_of_type :
    (to_number : Bytes → ℤ) (p q : ℤ) (t : EdgeType) (tv : TimestampValue) (r : EdgeRow)
    → stops to_number tv (record { primary_key = p; remote_key = q; type = t }) r
      ≡ satisfies to_number
          (bindings (record { primary_key = p; remote_key = q; type = t }) tv)
          (guard t)
          r
unfolding stops get_insert_edge_sql edge_key_values type_value satisfies cast_edge_type
guard_of_type to_number p q EdgeType.other tv r = refl
guard_of_type to_number p q EdgeType.unique tv r = refl
guard_of_type to_number p q EdgeType.bidirectional tv r = refl
guard_of_type to_number p q EdgeType.unique_and_bidirectional tv r = refl

module _ (client : SpannerClient) (to_number : Bytes → ℤ)
    (tables : EdgeClient client to_number) where
  abbrev committed : Edge → TimestampValue → client.State → Option Bytes × client.State
  committed e tv s =
      client.commit ((insert_unless inserted_operands (guard e.type), bindings e tv) ∷ []) s

  insert_by_type :
      (p q : ℤ) (t : EdgeType) (tv : TimestampValue) (s : client.State)
      → let e : Edge = record { primary_key = p; remote_key = q; type = t } in
        insert client edges (key_of e) tv s
        ≡ returns (commit_status (committed e tv s).0, (committed e tv s).1)
  unfolding insert get_insert_edge_sql edge_key_values type_value cast_edge_type
  insert_by_type p q EdgeType.other tv s = refl
  insert_by_type p q EdgeType.unique tv s = refl
  insert_by_type p q EdgeType.bidirectional tv s = refl
  insert_by_type p q EdgeType.unique_and_bidirectional tv s = refl

  -- With a Spanner that runs the guarded insert as documented, `Insert` of an edge of any kind
  -- returns the status of its commit and leaves a consistent table consistent.
  pub spanner_insert-IsConsistent :
      (e : Edge) (tv : TimestampValue) (s : client.State)
      → IsConsistent (tables.table s)
      → (result : Option Bytes) × (s' : client.State) × (insert client edges (key_of e) tv s
          ≡ returns (commit_status result, s'))
        × IsConsistent (tables.table s')
  spanner_insert-IsConsistent e tv s c = (
    (committed e tv s).0,
    (committed e tv s).1,
    insert_by_type e.primary_key e.remote_key e.type tv s,
    InsertsUnless-IsConsistent to_number inserted_operands (guard e.type) (bindings e tv) e
        tv.timestamp tv.value _ _
        (λ r.
          spanner_guard to_number tv e r
          ∙ guard_of_type to_number e.primary_key e.remote_key e.type tv r)
        (row_from-bindings e tv) (tables.inserts inserted_operands (guard e.type) (bindings e tv) s)
        c,
  )
