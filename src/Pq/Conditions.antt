-- ===== src/Pq/Conditions.antt =====
-- The conditions of the prepared statements of the drivers over libpqxx. A parameter `$n` is a slot by
-- its number.
use taobench.Prelude.{ℕ, pos}
use taobench.Db.{EdgeType}
use taobench.Sql.{nth, Operand, lit, slot, Column, Where, eq, and, or}

abbrev pub p : ℕ → Operand
p n = slot (nth n)

abbrev is_type : ℕ → Where
is_type n = eq Column.type (lit (pos n))

abbrev pub pair_is : Operand → Operand → Where
pair_is a b = and (eq Column.id1 a) (eq Column.id2 b)

abbrev pub triple_is : Operand → Operand → Operand → Where
triple_is a b t = and (pair_is a b) (eq Column.type t)

-- The conditions of the guarded inserts over the two ids, which the prepared statements give by their
-- parameters and the texts of a transaction as numbers.
module _ (id1 id2 : Operand) where
  unfoldable pub other_condition : Where
  other_condition = or (and (eq Column.id1 id1) (is_type 0)) (
      or (and (eq Column.id1 id1) (is_type 2))
        (or (and (pair_is id1 id2) (is_type 1)) (pair_is id2 id1)))

  unfoldable pub bidirectional_condition : Where
  bidirectional_condition = or (and (eq Column.id1 id1) (is_type 0)) (
      or (and (eq Column.id1 id1) (is_type 2)) (
        or (and (pair_is id1 id2) (is_type 3))
          (or (and (pair_is id2 id1) (is_type 3)) (and (pair_is id1 id2) (is_type 0)))))

  unfoldable pub unique_condition : Where
  unique_condition = or (eq Column.id1 id1) (pair_is id2 id1)

  unfoldable pub bi_unique_condition : Where
  bi_unique_condition =
      or (eq Column.id1 id1)
        (or (and (pair_is id2 id1) (is_type 3)) (and (pair_is id2 id1) (is_type 0)))

  unfoldable pub insert_condition : EdgeType → Where
  unfolding other_condition bidirectional_condition unique_condition bi_unique_condition
  insert_condition EdgeType.other = other_condition
  insert_condition EdgeType.bidirectional = bidirectional_condition
  insert_condition EdgeType.unique = unique_condition
  insert_condition EdgeType.unique_and_bidirectional = bi_unique_condition
