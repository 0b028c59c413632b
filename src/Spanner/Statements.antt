-- ===== src/Spanner/Statements.antt =====
-- spanner_db/spanner_db.cc: the statements with their named parameters, and the functions that bind
-- a key and a value to them. A comparison of tuples by `=` is written as the comparisons of its parts.
use Prim.Native.String.{String}
use taobench.Prelude.{ℤ, pos, codes, List, [], ◌∷◌, Option, none, some, true}
use taobench.Db.{
  Field, TimestampValue, edges, objects, EdgeType, cast_edge_type, edge_key_values,
  object_key_value, Outcome, returns, faults, Fault, ◌>>=◌,
}
use taobench.Sql.{
  named, Slot, Operand, lit, slot, Column, Where, eq, lt, gt, and, or, Statement, insert_values,
  insert_unless, delete, update, scan, Bindings, Value, int, text,
}

-- A parameter by its name.
abbrev pub at : String → Operand
at n = slot (named (codes n))

abbrev pub bind : String → Value → Slot × Value
bind n v = (named (codes n), v)

abbrev pair_is : Operand → Operand → Where
pair_is a b = and (eq Column.id1 a) (eq Column.id2 b)

abbrev triple_is : Operand → Operand → Operand → Where
triple_is a b t = and (pair_is a b) (eq Column.type t)

abbrev from_with_type : Operand → Operand → Where
from_with_type a t = and (eq Column.id1 a) (eq Column.type t)

unfoldable pub insert_object : Statement
insert_object = insert_values objects (at "id" ∷ at "timestamp" ∷ at "value" ∷ [])

abbrev pub inserted_operands : List Operand
inserted_operands = at "id1" ∷ at "id2" ∷ at "type" ∷ at "timestamp" ∷ at "value" ∷ []

unfoldable pub insert_edge : Where → Statement
insert_edge w = insert_unless inserted_operands w

unfoldable pub insert_edge_other : Where
insert_edge_other = or (from_with_type (at "id1") (lit (pos 0))) (
    or (from_with_type (at "id1") (lit (pos 2)))
      (or (triple_is (at "id1") (at "id2") (lit (pos 1))) (pair_is (at "id2") (at "id1"))))

unfoldable pub insert_edge_bidirectional : Where
insert_edge_bidirectional = or (from_with_type (at "id1") (lit (pos 0))) (
    or (from_with_type (at "id1") (lit (pos 2))) (
      or (triple_is (at "id1") (at "id2") (lit (pos 3))) (
        or (triple_is (at "id2") (at "id1") (lit (pos 3)))
          (triple_is (at "id2") (at "id1") (lit (pos 0))))))

unfoldable pub insert_edge_unique : Where
insert_edge_unique = or (eq Column.id1 (at "id1")) (pair_is (at "id2") (at "id1"))

unfoldable pub insert_edge_unique_bi : Where
insert_edge_unique_bi = or (eq Column.id1 (at "id1")) (
    or (triple_is (at "id2") (at "id1") (lit (pos 3)))
      (triple_is (at "id2") (at "id1") (lit (pos 0))))

unfoldable pub delete_object : Statement
delete_object = delete objects (and (eq Column.id (at "id")) (lt Column.timestamp (at "timestamp")))

unfoldable pub delete_edge : Statement
delete_edge =
    delete edges
      (and (triple_is (at "id1") (at "id2") (at "type")) (lt Column.timestamp (at "timestamp")))

unfoldable pub update_object : Statement
update_object =
    update objects (at "timestamp") (at "value")
      (and (eq Column.id (at "id")) (lt Column.timestamp (at "timestamp")))

unfoldable pub update_edge : Statement
update_edge =
    update edges (at "timestamp") (at "value")
      (and (triple_is (at "id1") (at "id2") (at "type")) (lt Column.timestamp (at "timestamp")))

-- The two halves of the condition of the batch read.
unfoldable pub above_floor : Where
above_floor =
    or (and (pair_is (at "fid1") (at "fid2")) (gt Column.type (at "ftype")))
      (or (and (eq Column.id1 (at "fid1")) (gt Column.id2 (at "fid2"))) (gt Column.id1 (at "fid1")))

unfoldable pub below_ceiling : Where
below_ceiling = or (lt Column.id1 (at "cid1")) (
    or (and (eq Column.id1 (at "cid1")) (lt Column.id2 (at "cid2")))
      (and (pair_is (at "cid1") (at "cid2")) (lt Column.type (at "ctype"))))

unfoldable pub batch_read : Statement
unfolding above_floor below_ceiling
batch_read = scan (and above_floor below_ceiling) true (at "n")

-- A statement with its parameters.
abbrev pub Bound : Type 0
Bound = Statement × Bindings

unfoldable pub edge_bindings : ℤ → ℤ → ℤ → TimestampValue → Bindings
edge_bindings id1 id2 type tv =
    bind "id1" (int id1)
    ∷ bind "id2" (int id2)
    ∷ bind "type" (int type)
    ∷ bind "timestamp" (int tv.timestamp)
    ∷ bind "value" (text tv.value)
    ∷ []

unfoldable pub object_bindings : ℤ → TimestampValue → Bindings
object_bindings id tv =
    bind "id" (int id) ∷ bind "timestamp" (int tv.timestamp) ∷ bind "value" (text tv.value) ∷ []

unfoldable pub get_update_edge_sql : List Field → TimestampValue → Outcome Bound
unfolding edge_bindings update_edge
get_update_edge_sql key tv = do
  (id1, id2, type) ← edge_key_values key
  returns (update_edge, edge_bindings id1 id2 type tv)

unfoldable pub get_update_object_sql : List Field → TimestampValue → Outcome Bound
unfolding object_bindings update_object
get_update_object_sql key tv = do
  id ← object_key_value key
  returns (update_object, object_bindings id tv)

-- The guard by the kind of the edge; `none` is a value that is no enumerator.
unfoldable pub insert_edge_guard : Option EdgeType → Outcome Where
unfolding insert_edge_other insert_edge_unique insert_edge_bidirectional insert_edge_unique_bi
insert_edge_guard (some EdgeType.other) = returns insert_edge_other
insert_edge_guard (some EdgeType.unique) = returns insert_edge_unique
insert_edge_guard (some EdgeType.bidirectional) = returns insert_edge_bidirectional
insert_edge_guard (some EdgeType.unique_and_bidirectional) = returns insert_edge_unique_bi
insert_edge_guard none = faults Fault.runtime_error

unfoldable pub get_insert_edge_sql : List Field → TimestampValue → Outcome Bound
unfolding edge_bindings insert_edge insert_edge_guard
get_insert_edge_sql key tv = do
  (id1, id2, type) ← edge_key_values key
  guard ← insert_edge_guard (cast_edge_type type)
  returns (insert_edge guard, edge_bindings id1 id2 type tv)

unfoldable pub get_insert_object_sql : List Field → TimestampValue → Outcome Bound
unfolding object_bindings insert_object
get_insert_object_sql key tv = do
  id ← object_key_value key
  returns (insert_object, object_bindings id tv)

unfoldable pub get_delete_edge_sql : List Field → TimestampValue → Outcome Bound
unfolding delete_edge
get_delete_edge_sql key tv = do
  (id1, id2, type) ← edge_key_values key
  returns (
    delete_edge,
    bind "id1" (int id1)
        ∷ bind "id2" (int id2)
        ∷ bind "type" (int type)
        ∷ bind "timestamp" (int tv.timestamp)
        ∷ [],
  )

unfoldable pub get_delete_object_sql : List Field → TimestampValue → Outcome Bound
unfolding delete_object
get_delete_object_sql key tv = do
  id ← object_key_value key
  returns (delete_object, bind "id" (int id) ∷ bind "timestamp" (int tv.timestamp) ∷ [])

unfoldable pub batch_bindings : ℤ × ℤ × ℤ → ℤ × ℤ × ℤ → ℤ → Bindings
batch_bindings (fid1, fid2, ftype) (cid1, cid2, ctype) n =
    bind "fid1" (int fid1)
    ∷ bind "fid2" (int fid2)
    ∷ bind "ftype" (int ftype)
    ∷ bind "cid1" (int cid1)
    ∷ bind "cid2" (int cid2)
    ∷ bind "ctype" (int ctype)
    ∷ bind "n" (int n)
    ∷ []

unfoldable pub get_batch_read_sql : List Field → List Field → ℤ → Outcome Bound
unfolding batch_read batch_bindings
get_batch_read_sql floor_key ceil_key n = do
  floor ← edge_key_values floor_key
  ceiling ← edge_key_values ceil_key
  returns (batch_read, batch_bindings floor ceiling n)
