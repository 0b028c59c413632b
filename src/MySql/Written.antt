-- ===== src/MySql/Written.antt =====
-- mysqldb/mysql_db.cc: the statements that a transaction writes out, with numbers and values in place
-- of parameters. A value stands between quotes as it is, so it must hold no quote and no escape
-- character. Keys are read without a look at their size.
use taobench.Prelude.{ℤ, pos, List, [], ◌∷◌, Option, none, some}
use taobench.Db.{
  DataTable, edges, objects, TimestampValue, DbOperation, Operation, Outcome, returns, ◌>>=◌,
  EdgeType, cast_edge_type, first_one, first_three,
}
use taobench.Sql.{
  Operand, lit, quoted, Column, Where, eq, lt, and, or, Statement, select, insert_values,
  insert_unless, delete, update,
}

abbrev pair_is : ℤ → ℤ → Where
pair_is a b = and (eq Column.id1 (lit a)) (eq Column.id2 (lit b))

abbrev triple_is : ℤ → ℤ → Operand → Where
triple_is a b t = and (pair_is a b) (eq Column.type t)

abbrev from_with_type : ℤ → Operand → Where
from_with_type a t = and (eq Column.id1 (lit a)) (eq Column.type t)

unfoldable pub read_object_sql : DbOperation → Outcome Statement
read_object_sql op = do id ← first_one op.key; returns (select objects (eq Column.id (lit id)))

unfoldable pub read_edge_sql : DbOperation → Outcome Statement
read_edge_sql op = do
  (id1, id2, type) ← first_three op.key
  returns (select edges (triple_is id1 id2 (lit type)))

unfoldable pub insert_object_sql : DbOperation → Outcome Statement
insert_object_sql op = do
  id ← first_one op.key
  let tv = op.time_and_value
  returns (insert_values objects (lit id ∷ lit tv.timestamp ∷ quoted tv.value ∷ []))

abbrev pub written_values : ℤ → ℤ → ℤ → TimestampValue → List Operand
written_values id1 id2 type tv =
    lit id1 ∷ lit id2 ∷ lit type ∷ lit tv.timestamp ∷ quoted tv.value ∷ []

unfoldable pub insert_other_sql : DbOperation → Outcome Statement
insert_other_sql op = do
  (id1, id2, type) ← first_three op.key
  returns (
      insert_unless (written_values id1 id2 type op.time_and_value) (
        or (from_with_type id1 (lit (pos 0))) (
          or (from_with_type id1 (lit (pos 2)))
            (or (triple_is id1 id2 (lit (pos 1))) (pair_is id2 id1)))))

unfoldable pub insert_unique_sql : DbOperation → Outcome Statement
insert_unique_sql op = do
  (id1, id2, type) ← first_three op.key
  returns (
      insert_unless (written_values id1 id2 type op.time_and_value)
        (or (eq Column.id1 (lit id1)) (pair_is id2 id1)))

unfoldable pub insert_bidirectional_sql : DbOperation → Outcome Statement
insert_bidirectional_sql op = do
  (id1, id2, type) ← first_three op.key
  returns (
      insert_unless (written_values id1 id2 type op.time_and_value) (
        or (from_with_type id1 (lit (pos 0))) (
          or (from_with_type id1 (lit (pos 2))) (
            or (triple_is id1 id2 (lit (pos 3)))
              (or (triple_is id2 id1 (lit (pos 3))) (triple_is id1 id2 (lit (pos 0))))))))

unfoldable pub insert_unique_and_bidirectional_sql : DbOperation → Outcome Statement
insert_unique_and_bidirectional_sql op = do
  (id1, id2, type) ← first_three op.key
  returns (
      insert_unless (written_values id1 id2 type op.time_and_value) (
        or (eq Column.id1 (lit id1))
          (or (triple_is id2 id1 (lit (pos 3))) (triple_is id2 id1 (lit (pos 0))))))

unfoldable pub delete_object_sql : DbOperation → Outcome Statement
delete_object_sql op = do
  id ← first_one op.key
  returns (
      delete objects
        (and (lt Column.timestamp (lit op.time_and_value.timestamp)) (eq Column.id (lit id))))

unfoldable pub delete_edge_sql : DbOperation → Outcome Statement
delete_edge_sql op = do
  (id1, id2, type) ← first_three op.key
  returns (
      delete edges (
        and (lt Column.timestamp (lit op.time_and_value.timestamp)) (triple_is id1 id2 (lit type))))

unfoldable pub update_object_sql : DbOperation → Outcome Statement
update_object_sql op = do
  id ← first_one op.key
  let tv = op.time_and_value
  returns (
      update objects (lit tv.timestamp) (quoted tv.value)
        (and (lt Column.timestamp (lit tv.timestamp)) (eq Column.id (lit id))))

unfoldable pub update_edge_sql : DbOperation → Outcome Statement
update_edge_sql op = do
  (id1, id2, type) ← first_three op.key
  let tv = op.time_and_value
  returns (
      update edges (lit tv.timestamp) (quoted tv.value)
        (and (lt Column.timestamp (lit tv.timestamp)) (triple_is id1 id2 (lit type))))

-- What the switch of `ExecuteTransaction` writes for an operation. An edge whose type is no edge type
-- leaves an empty statement.
pub data Written : Type 0 where
  statement : Statement → Written
  nothing : Written
  unsupported : Written

abbrev written : Outcome Statement → Outcome Written
written s = do stmt ← s; returns (statement stmt)

unfoldable pub insert_edge_by : Option EdgeType → DbOperation → Outcome Written
unfolding insert_other_sql insert_unique_sql insert_bidirectional_sql
    insert_unique_and_bidirectional_sql
insert_edge_by (some EdgeType.other) op = written (insert_other_sql op)
insert_edge_by (some EdgeType.unique) op = written (insert_unique_sql op)
insert_edge_by (some EdgeType.bidirectional) op = written (insert_bidirectional_sql op)
insert_edge_by (some EdgeType.unique_and_bidirectional) op =
    written (insert_unique_and_bidirectional_sql op)
insert_edge_by none op = returns nothing

unfoldable pub write_operation : Operation → DataTable → DbOperation → Outcome Written
unfolding read_object_sql read_edge_sql insert_object_sql delete_object_sql delete_edge_sql
    update_object_sql update_edge_sql insert_edge_by
write_operation Operation.read edges op = written (read_edge_sql op)
write_operation Operation.read objects op = written (read_object_sql op)
write_operation Operation.delete edges op = written (delete_edge_sql op)
write_operation Operation.delete objects op = written (delete_object_sql op)
write_operation Operation.update edges op = written (update_edge_sql op)
write_operation Operation.update objects op = written (update_object_sql op)
write_operation Operation.insert objects op = written (insert_object_sql op)
write_operation Operation.insert edges op = do
  (id1, id2, type) ← first_three op.key
  insert_edge_by (cast_edge_type type) op
write_operation _ t op = returns unsupported
