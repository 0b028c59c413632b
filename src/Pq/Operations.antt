-- ===== src/Pq/Operations.antt =====
-- `DoRead`, `DoUpdate`, `DoInsert` and `DoDelete`, which throw or give the rows of a result, over the
-- statements that `Init` prepares. Keys are not checked: a field that is not there is read beyond the
-- end of the key.
use taobench.Prelude.{
  ℕ, ◌+◌, Bytes, codes, eq_bytes, List, [], ◌∷◌, Option, some, none, if◌then◌else◌,
}
use taobench.Db.{
  DataTable, edges, objects, Field, TimestampValue, Outcome, returns, ◌>>=◌, EdgeType,
  cast_edge_type, first_one, first_three,
}
use taobench.Sql.{Statement, Bindings, Value, int, text, nth, ResultRow}
use taobench.Pq.Connection.{Connection}

-- The statements by the names that `prepare` gives them.
abbrev pub Prepared : Type 0
Prepared = List (Bytes × Statement)

unfoldable pub prepared_as : Bytes → Prepared → Option Statement
prepared_as name [] = none
prepared_as name ((n, stmt) ∷ stmts) = if eq_bytes n name then some stmt else prepared_as name stmts

-- The arguments of `exec_prepared` are `$1`, `$2` and so on.
unfoldable pub bind_from : ℕ → List Value → Bindings
bind_from n [] = []
bind_from n (v ∷ vs) = (nth n, v) ∷ bind_from (n + 1) vs

-- The name of the statement that inserts an edge of a type; `none` is a value that is no enumerator.
unfoldable pub insert_name : Option EdgeType → Option Bytes
insert_name (some EdgeType.other) = some (codes "insert_edge_other")
insert_name (some EdgeType.bidirectional) = some (codes "insert_edge_bidirectional")
insert_name (some EdgeType.unique) = some (codes "insert_edge_unique")
insert_name (some EdgeType.unique_and_bidirectional) = some (codes "insert_edge_bi_unique")
insert_name none = none

module _ (conn : Connection) (prepared : Prepared) where
  open conn use {State}

  -- What a helper gives: rows, or `none` for an exception.
  abbrev pub Result : Type 0
  Result = Option (List ResultRow) × State

  unfoldable pub exec_prepared : Option Statement → List Value → State → Result
  unfolding bind_from
  exec_prepared none vs s = (none, s)
  exec_prepared (some stmt) vs s = conn.exec_prepared stmt (bind_from 1 vs) s

  abbrev by_name : Bytes → List Value → State → Result
  by_name name vs s = exec_prepared (prepared_as name prepared) vs s

  unfoldable pub do_read : DataTable → List Field → State → Outcome Result
  unfolding exec_prepared prepared_as first_one first_three
  do_read objects key s = do
    id ← first_one key
    returns (by_name (codes "read_object") (int id ∷ []) s)
  do_read edges key s = do
    (id1, id2, type) ← first_three key
    returns (by_name (codes "read_edge") (int id1 ∷ int id2 ∷ int type ∷ []) s)

  unfoldable pub do_update : DataTable → List Field → TimestampValue → State → Outcome Result
  unfolding exec_prepared prepared_as first_one first_three
  do_update objects key tv s = do
    id ← first_one key
    returns (by_name (codes "update_object") (int tv.timestamp ∷ text tv.value ∷ int id ∷ []) s)
  do_update edges key tv s = do
    (id1, id2, type) ← first_three key
    returns (
        by_name (codes "update_edge")
          (int tv.timestamp ∷ text tv.value ∷ int id1 ∷ int id2 ∷ int type ∷ []) s)

  unfoldable pub insert_named : Option Bytes → List Value → State → Result
  unfolding exec_prepared prepared_as
  insert_named none vs s = (none, s)
  insert_named (some name) vs s = by_name name vs s

  unfoldable pub do_insert : DataTable → List Field → TimestampValue → State → Outcome Result
  unfolding exec_prepared prepared_as first_one first_three insert_name insert_named
  do_insert objects key tv s = do
    id ← first_one key
    returns (by_name (codes "insert_object") (int id ∷ int tv.timestamp ∷ text tv.value ∷ []) s)
  do_insert edges key tv s = do
    (id1, id2, type) ← first_three key
    returns (
        insert_named (insert_name (cast_edge_type type))
          (int id1 ∷ int id2 ∷ int type ∷ int tv.timestamp ∷ text tv.value ∷ []) s)

  unfoldable pub do_delete : DataTable → List Field → TimestampValue → State → Outcome Result
  unfolding exec_prepared prepared_as first_one first_three
  do_delete objects key tv s = do
    id ← first_one key
    returns (by_name (codes "delete_object") (int id ∷ int tv.timestamp ∷ []) s)
  do_delete edges key tv s = do
    (id1, id2, type) ← first_three key
    returns (by_name (codes "delete_edge") (int id1 ∷ int id2 ∷ int type ∷ int tv.timestamp ∷ []) s)
