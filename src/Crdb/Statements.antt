-- ===== src/Crdb/Statements.antt =====
-- crdb/crdb_db.cc: the statements that `Init` prepares, by their names, with the default table names.
use taobench.Prelude.{codes, List, [], ◌∷◌, false}
use taobench.Db.{edges, objects}
use taobench.Sql.{
  Operand, Column, Where, eq, lt, gt, and, or, Statement, select, insert_values, insert_unless,
  delete, update, scan,
}
use taobench.Pq.Conditions.{
  p, pair_is, triple_is, other_condition, bidirectional_condition, unique_condition,
  bi_unique_condition,
}
use taobench.Pq.Operations.{Prepared}

abbrev pub inserted_operands : List Operand
inserted_operands = p 1 ∷ p 2 ∷ p 3 ∷ p 4 ∷ p 5 ∷ []

abbrev insert_edge : Where → Statement
insert_edge w = insert_unless inserted_operands w

unfoldable pub above_floor : Where
above_floor =
    or (and (pair_is (p 1) (p 2)) (gt Column.type (p 3)))
      (or (and (eq Column.id1 (p 1)) (gt Column.id2 (p 2))) (gt Column.id1 (p 1)))

unfoldable pub below_ceiling : Where
below_ceiling = or (lt Column.id1 (p 4)) (
    or (and (eq Column.id1 (p 4)) (lt Column.id2 (p 5)))
      (and (pair_is (p 4) (p 5)) (lt Column.type (p 6))))

unfoldable pub batch_read_statement : Statement
unfolding above_floor below_ceiling
batch_read_statement = scan (and above_floor below_ceiling) false (p 7)

unfoldable pub prepared : Prepared
unfolding other_condition bidirectional_condition unique_condition bi_unique_condition
prepared =
    (codes "read_object", select objects (eq Column.id (p 1)))
    ∷ (codes "read_edge", select edges (triple_is (p 1) (p 2) (p 3)))
    ∷ (
      codes "update_object",
      update objects (p 1) (p 2) (and (eq Column.id (p 3)) (lt Column.timestamp (p 1))),
    )
    ∷ (
      codes "update_edge",
      update edges (p 1) (p 2) (and (triple_is (p 3) (p 4) (p 5)) (lt Column.timestamp (p 1))),
    )
    ∷ (codes "insert_object", insert_values objects (p 1 ∷ p 2 ∷ p 3 ∷ []))
    ∷ (codes "insert_edge_other", insert_edge (other_condition (p 1) (p 2)))
    ∷ (codes "insert_edge_bidirectional", insert_edge (bidirectional_condition (p 1) (p 2)))
    ∷ (codes "insert_edge_unique", insert_edge (unique_condition (p 1) (p 2)))
    ∷ (codes "insert_edge_bi_unique", insert_edge (bi_unique_condition (p 1) (p 2)))
    ∷ (codes "delete_object", delete objects (and (eq Column.id (p 1)) (lt Column.timestamp (p 2))))
    ∷ (
      codes "delete_edge",
      delete edges (and (triple_is (p 1) (p 2) (p 3)) (lt Column.timestamp (p 4))),
    )
    ∷ []
