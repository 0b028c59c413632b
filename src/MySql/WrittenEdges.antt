-- ===== src/MySql/WrittenEdges.antt =====
-- The statements that a transaction writes for edges, on a row of the table.
use taobench.Prelude.{ℤ, ◌==ℤ◌, Bytes, Bool, false, ◌&&◌, [], ◌≡◌, refl, arith}
use taobench.Db.{
  edges, TimestampValue, DbOperation, Operation, Outcome, returns, faults, Edge, EdgeType, EdgeRow,
  type_value, cast_edge_type, first_three,
}
use taobench.Db.Incompatible.{key_of}
use taobench.Sql.{Statement, insert_unless, select, delete, update, satisfies}
use taobench.MySql.Statements.{
  bind_from, build_insert_other, build_insert_unique, build_insert_bidirectional,
  build_insert_unique_and_bidirectional,
}
use taobench.MySql.Driver.{insert_bindings, insert_statement}
use taobench.MySql.Guards.{stops}
use taobench.MySql.Deletes.{is_due}
use taobench.MySql.Written.{Written, statement, nothing, unsupported, write_operation}

abbrev statement_finds : (Bytes → ℤ) → Statement → EdgeRow → Bool
statement_finds to_number (insert_unless os w) r = satisfies to_number [] w r
statement_finds to_number (select t w) r = satisfies to_number [] w r
statement_finds to_number (delete t w) r = satisfies to_number [] w r
statement_finds to_number (update t a b w) r = satisfies to_number [] w r
statement_finds to_number _ r = false

abbrev finds : (Bytes → ℤ) → Outcome Written → EdgeRow → Bool
finds to_number (returns (statement stmt)) r = statement_finds to_number stmt r
finds to_number (returns nothing) r = false
finds to_number (returns unsupported) r = false
finds to_number (faults f) r = false

abbrev pub operation_of : Operation → Edge → TimestampValue → DbOperation
operation_of o e tv = record { table = edges; key = key_of e; time_and_value = tv; operation = o }

-- Whether the statement that a transaction writes for the operation finds the row.
unfoldable pub written_finds : (Bytes → ℤ) → Operation → TimestampValue → Edge → EdgeRow → Bool
written_finds to_number o tv e r = finds to_number (write_operation o edges (operation_of o e tv)) r

unfoldable pub has_key : Edge → EdgeRow → Bool
has_key e r =
    (r.id1 ==ℤ e.primary_key) && (r.id2 ==ℤ e.remote_key) && (r.type ==ℤ type_value e.type)

insert_at :
    (to_number : Bytes → ℤ) (tv : TimestampValue) (p q : ℤ) (t : EdgeType) (r : EdgeRow)
    → let e : Edge = record { primary_key = p; remote_key = q; type = t } in
      written_finds to_number Operation.insert tv e r ≡ stops to_number tv.timestamp tv.value e r
unfolding written_finds write_operation first_three cast_edge_type type_value stops insert_bindings
    insert_statement build_insert_other build_insert_unique build_insert_bidirectional
    build_insert_unique_and_bidirectional bind_from satisfies
insert_at to_number tv p q EdgeType.unique r = refl
insert_at to_number tv p q EdgeType.bidirectional r = refl
insert_at to_number tv p q EdgeType.unique_and_bidirectional r = refl
insert_at to_number tv p q EdgeType.other r = refl

-- In a transaction the written insert of an edge is stopped by the rows that stop the prepared one;
-- the written delete and the written update find exactly the row with the edge's key where it is older
-- than the operation's timestamp; and the written read finds exactly the row with the edge's key.
pub written_edges :
    (to_number : Bytes → ℤ) (tv : TimestampValue) (e : Edge) (r : EdgeRow)
    → (written_finds to_number Operation.insert tv e r ≡ stops to_number tv.timestamp tv.value e r)
      × (written_finds to_number Operation.delete tv e r ≡ is_due tv.timestamp e r)
      × (written_finds to_number Operation.update tv e r ≡ is_due tv.timestamp e r)
      × (written_finds to_number Operation.read tv e r ≡ has_key e r)
unfolding written_finds write_operation first_three satisfies is_due has_key
written_edges to_number tv e r = (
  insert_at to_number tv e.primary_key e.remote_key e.type r,
  ground arith,
  ground arith,
  ground arith,
)
