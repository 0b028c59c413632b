-- ===== src/MySql/Statements.antt =====
-- mysqldb/mysql_db.cc: the prepared statements (`Build…`) with what `bindParam` gives them, and the
-- statements that a transaction writes out (`…SQL`). A prepared `?` is a slot by its position.
use taobench.Prelude.{ℕ, pos, ◌+◌, List, [], ◌∷◌}
use taobench.Db.{edges, objects}
use taobench.Sql.{
  nth, Operand, lit, slot, Column, Where, eq, lt, and, or, Statement, select, insert_values,
  insert_unless, delete, update, Bindings, Value,
}

abbrev pub p : ℕ → Operand
p n = slot (nth n)

abbrev is_type : ℕ → Where
is_type n = eq Column.type (lit (pos n))

abbrev pair_is : Operand → Operand → Where
pair_is a b = and (eq Column.id1 a) (eq Column.id2 b)

unfoldable pub build_read_object : Statement
build_read_object = select objects (eq Column.id (p 0))

unfoldable pub build_read_edge : Statement
build_read_edge = select edges (and (pair_is (p 0) (p 1)) (eq Column.type (p 2)))

unfoldable pub build_insert_object : Statement
build_insert_object = insert_values objects (p 0 ∷ p 1 ∷ p 2 ∷ [])

abbrev edge_base : Where → Statement
edge_base = insert_unless (p 0 ∷ p 1 ∷ p 2 ∷ p 3 ∷ p 4 ∷ [])

unfoldable pub other_filter : Where
other_filter = or (and (eq Column.id1 (p 5)) (is_type 0)) (
    or (and (eq Column.id1 (p 6)) (is_type 2))
      (or (and (pair_is (p 7) (p 8)) (is_type 1)) (pair_is (p 9) (p 10))))

unfoldable pub build_insert_other : Statement
unfolding other_filter
build_insert_other = edge_base other_filter

unfoldable pub unique_filter : Where
unique_filter = or (eq Column.id1 (p 5)) (pair_is (p 6) (p 7))

unfoldable pub build_insert_unique : Statement
unfolding unique_filter
build_insert_unique = edge_base unique_filter

unfoldable pub bidirectional_filter : Where
bidirectional_filter = or (and (eq Column.id1 (p 5)) (is_type 0)) (
    or (and (eq Column.id1 (p 6)) (is_type 2)) (
      or (and (pair_is (p 7) (p 8)) (is_type 3))
        (or (and (pair_is (p 9) (p 10)) (is_type 3)) (and (pair_is (p 11) (p 12)) (is_type 0)))))

unfoldable pub build_insert_bidirectional : Statement
unfolding bidirectional_filter
build_insert_bidirectional = edge_base bidirectional_filter

unfoldable pub unique_bi_filter : Where
unique_bi_filter =
    or (eq Column.id1 (p 5))
      (or (and (pair_is (p 6) (p 7)) (is_type 3)) (and (pair_is (p 8) (p 9)) (is_type 0)))

unfoldable pub build_insert_unique_and_bidirectional : Statement
unfolding unique_bi_filter
build_insert_unique_and_bidirectional = edge_base unique_bi_filter

unfoldable pub build_delete_object : Statement
build_delete_object = delete objects (and (lt Column.timestamp (p 0)) (eq Column.id (p 1)))

unfoldable pub build_delete_edge : Statement
build_delete_edge =
    delete edges
      (and (lt Column.timestamp (p 0)) (and (pair_is (p 1) (p 2)) (eq Column.type (p 3))))

unfoldable pub build_update_object : Statement
build_update_object =
    update objects (p 0) (p 1) (and (lt Column.timestamp (p 2)) (eq Column.id (p 3)))

unfoldable pub build_update_edge : Statement
build_update_edge =
    update edges (p 0) (p 1)
      (and (lt Column.timestamp (p 2)) (and (pair_is (p 3) (p 4)) (eq Column.type (p 5))))

-- A row of `bindParam` calls, from a position on.
unfoldable pub bind_from : ℕ → List Value → Bindings
bind_from n [] = []
bind_from n (v ∷ vs) = (nth n, v) ∷ bind_from (n + 1) vs
