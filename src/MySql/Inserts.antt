-- ===== src/MySql/Inserts.antt =====
-- `MySqlDB::Insert` keeps the table of edges consistent, but for bidirectional edges.
use taobench.Prelude.{ℤ, Bytes, List, ◌≡◌, refl, arith, ◌≢◌, ◌⊎◌, inl, inr}
use taobench.Db.{
  Edge, EdgeType, type_value, TimestampValue, edges, returns, Status, k_ok, k_error,
  cast_edge_type-type_value, edge_key_values,
}
use taobench.Db.Incompatible.{key_of}
use taobench.Sql.{Statement, Value, Server, Reply, rows, error, operand_value}
use taobench.Sql.Guard.{EdgeServer, IsConsistent, InsertsUnless-IsConsistent, row_from}
use taobench.MySql.Statements.{
  bind_from, build_insert_other, build_insert_unique, build_insert_unique_and_bidirectional,
  other_filter, unique_filter, unique_bi_filter,
}
use taobench.MySql.Driver.{insert_bindings, insert_statement, insert, run, c_str}
use taobench.MySql.Guards.{insert_values_of, inserted_operands, guard_exact, stops, guard_of}

module _ (srv : Server) (to_number : Bytes → ℤ) (tables : EdgeServer srv to_number) where
  status_of : Reply → Status
  status_of (rows _) = k_ok
  status_of (error _) = k_error

  status_ok_or_error : (r : Reply) → (status_of r ≡ k_ok) ⊎ (status_of r ≡ k_error)
  unfolding status_of
  status_ok_or_error (rows _) = inl refl
  status_ok_or_error (error _) = inr refl

  abbrev prepared : Edge → TimestampValue → srv.State → Reply × srv.State
  prepared e tv s =
      srv.execute (insert_statement e.type)
        (bind_from 0 (insert_values_of e tv.timestamp (c_str tv.value))) s

  run_lem :
      (stmt : Statement) (vs : List Value) (s : srv.State)
      → run srv stmt vs s
        ≡ returns (
          status_of (srv.execute stmt (bind_from 0 vs) s).0,
          (srv.execute stmt (bind_from 0 vs) s).1,
        )
  unfolding run status_of
  run_lem stmt vs s = ground arith

  insert-eq-prepared :
      (e : Edge) (tv : TimestampValue) (s : srv.State)
      → insert srv edges (key_of e) tv s
        ≡ returns (status_of (prepared e tv s).0, (prepared e tv s).1)
  unfolding insert edge_key_values
  insert-eq-prepared e tv s = rw (cast_edge_type-type_value e.type) (run_lem _ _ s)

  -- What the server does with the statement of an edge, by its condition.
  prepared-IsConsistent :
      (p q : ℤ) (t : EdgeType) (tv : TimestampValue) (s : srv.State)
      → t ≢ EdgeType.bidirectional
      → IsConsistent (tables.table s)
      → IsConsistent
          (tables.table (prepared (record { primary_key = p; remote_key = q; type = t }) tv s).1)
  unfolding insert_statement insert_bindings build_insert_other build_insert_unique
      build_insert_unique_and_bidirectional bind_from row_from type_value stops guard_of
      operand_value
  prepared-IsConsistent p q EdgeType.bidirectional tv s d c = absurd (d refl)
  prepared-IsConsistent p q EdgeType.unique tv s d c =
      InsertsUnless-IsConsistent to_number inserted_operands unique_filter _
        (record { primary_key = p; remote_key = q; type = EdgeType.unique }) tv.timestamp
        (c_str tv.value) _ _ (λ r. guard_exact to_number tv.timestamp (c_str tv.value) _ r d) refl
        (tables.inserts inserted_operands unique_filter _ s) c
  prepared-IsConsistent p q EdgeType.unique_and_bidirectional tv s d c =
      InsertsUnless-IsConsistent to_number inserted_operands unique_bi_filter _
        (record { primary_key = p; remote_key = q; type = EdgeType.unique_and_bidirectional })
        tv.timestamp (c_str tv.value) _ _
        (λ r. guard_exact to_number tv.timestamp (c_str tv.value) _ r d) refl
        (tables.inserts inserted_operands unique_bi_filter _ s) c
  prepared-IsConsistent p q EdgeType.other tv s d c =
      InsertsUnless-IsConsistent to_number inserted_operands other_filter _
        (record { primary_key = p; remote_key = q; type = EdgeType.other }) tv.timestamp
        (c_str tv.value) _ _ (λ r. guard_exact to_number tv.timestamp (c_str tv.value) _ r d) refl
        (tables.inserts inserted_operands other_filter _ s) c

  -- With a server that runs the guarded insert as documented, `Insert` of an edge that is not
  -- bidirectional returns, with `kOK` or `kError`, and leaves a consistent table consistent.
  pub insert-IsConsistent :
      (e : Edge) (tv : TimestampValue) (s : srv.State)
      → e.type ≢ EdgeType.bidirectional
      → IsConsistent (tables.table s)
      → (status : Status) × (s' : srv.State) × (insert srv edges (key_of e) tv s
          ≡ returns (status, s'))
        × ((status ≡ k_ok) ⊎ (status ≡ k_error))
        × IsConsistent (tables.table s')
  insert-IsConsistent e tv s d c = (
    status_of (prepared e tv s).0,
    (prepared e tv s).1,
    insert-eq-prepared e tv s,
    status_ok_or_error (prepared e tv s).0,
    prepared-IsConsistent e.primary_key e.remote_key e.type tv s d c,
  )
