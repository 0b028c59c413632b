-- ===== src/Yugabyte/Rows.antt =====
-- The rows that the operations of the driver for YugabyteDB read and write.
use taobench.Prelude.{ℤ, List, [], ◌∷◌, map, Option, some, none, ◌≡◌, ◌⊎◌, inr, refl}
use taobench.Db.{
  DataTable, edges, objects, Field, TimestampValue, EdgeType, cast_edge_type, edge_key, first_one,
  first_three, returns, Outcome,
}
use taobench.Database.{IsKey}
use taobench.Sql.{operand_value, int, text}
use taobench.Pq.Connection.{Connection}
use taobench.Pq.KeyedRows.{
  KeyedRows, by_id, by_triple, also, updated, deleted, inserted_object, inserted_edge,
}
use taobench.Pq.Operations.{
  Result, prepared_as, bind_from, exec_prepared, insert_name, insert_named, do_read, do_update,
  do_insert, do_delete,
}
use taobench.Yugabyte.Statements.{prepared}

-- The primary key that a key stands for.
abbrev pub values : List Field → List ℤ
values k = map (λ f. f.value) k

module _ (conn : Connection) (rows : KeyedRows conn) where
  open rows use {row, begun, touches, keeps_begun, finds, reads_only}

  abbrev pub SameRows : conn.State → conn.State → Type 0
  SameRows s s' = (u : DataTable) (l : List ℤ) → row s' u l ≡ row s u l

  abbrev pub SameBegun : conn.State → conn.State → Type 0
  SameBegun s s' = (u : DataTable) (l : List ℤ) → begun s' u l ≡ begun s u l

  -- The row of this key changes at most.
  abbrev pub OwnRow : DataTable → List ℤ → conn.State → conn.State → Type 0
  OwnRow t k s s' = (u : DataTable) (l : List ℤ) → ((u ≡ t) × (l ≡ k)) ⊎ (row s' u l ≡ row s u l)

  abbrev pub Writes : DataTable → List Field → conn.State → Outcome (Result conn prepared) → Type 0
  Writes t k s r =
      (q : Result conn prepared) × (r ≡ returns q) × OwnRow t (values k) s q.1 × SameBegun s q.1

  pub do_update-Writes :
      (t : DataTable) (k : List Field) (tv : TimestampValue) (s : conn.State)
      → IsKey t k
      → Writes t k s (do_update conn prepared t k tv s)
  unfolding do_update exec_prepared prepared_as prepared bind_from operand_value first_one
      first_three
  do_update-Writes t k tv s (IsKey.edge a b d) = (
    _,
    refl,
    touches _ edges _ (a ∷ b ∷ d ∷ []) s (updated (also (by_triple refl refl refl))),
    keeps_begun _ _ s,
  )
  do_update-Writes t k tv s (IsKey.object a) =
      (_, refl, touches _ objects _ (a ∷ []) s (updated (also (by_id refl))), keeps_begun _ _ s)

  pub do_delete-Writes :
      (t : DataTable) (k : List Field) (tv : TimestampValue) (s : conn.State)
      → IsKey t k
      → Writes t k s (do_delete conn prepared t k tv s)
  unfolding do_delete exec_prepared prepared_as prepared bind_from operand_value first_one
      first_three
  do_delete-Writes t k tv s (IsKey.edge a b d) = (
    _,
    refl,
    touches _ edges _ (a ∷ b ∷ d ∷ []) s (deleted (also (by_triple refl refl refl))),
    keeps_begun _ _ s,
  )
  do_delete-Writes t k tv s (IsKey.object a) =
      (_, refl, touches _ objects _ (a ∷ []) s (deleted (also (by_id refl))), keeps_begun _ _ s)

  insert_named-Writes :
      (e : Option EdgeType) (a b d : ℤ) (tv : TimestampValue) (s : conn.State)
      → let vs = int a ∷ int b ∷ int d ∷ int tv.timestamp ∷ text tv.value ∷ [] in
        Writes edges (edge_key a b d) s (returns (insert_named conn prepared (insert_name e) vs s))
  unfolding insert_named insert_name exec_prepared prepared_as prepared bind_from operand_value
  insert_named-Writes none a b d tv s = (_, refl, (λ u l. inr refl), (λ u l. refl))
  insert_named-Writes (some EdgeType.other) a b d tv s = (
    _,
    refl,
    touches _ edges _ (a ∷ b ∷ d ∷ []) s (inserted_edge refl refl refl),
    keeps_begun _ _ s,
  )
  insert_named-Writes (some EdgeType.unique) a b d tv s = (
    _,
    refl,
    touches _ edges _ (a ∷ b ∷ d ∷ []) s (inserted_edge refl refl refl),
    keeps_begun _ _ s,
  )
  insert_named-Writes (some EdgeType.bidirectional) a b d tv s = (
    _,
    refl,
    touches _ edges _ (a ∷ b ∷ d ∷ []) s (inserted_edge refl refl refl),
    keeps_begun _ _ s,
  )
  insert_named-Writes (some EdgeType.unique_and_bidirectional) a b d tv s = (
    _,
    refl,
    touches _ edges _ (a ∷ b ∷ d ∷ []) s (inserted_edge refl refl refl),
    keeps_begun _ _ s,
  )

  pub do_insert-Writes :
      (t : DataTable) (k : List Field) (tv : TimestampValue) (s : conn.State)
      → IsKey t k
      → Writes t k s (do_insert conn prepared t k tv s)
  unfolding do_insert exec_prepared prepared_as prepared bind_from operand_value first_one
      first_three
  do_insert-Writes t k tv s (IsKey.edge a b d) = insert_named-Writes (cast_edge_type d) a b d tv s
  do_insert-Writes t k tv s (IsKey.object a) =
      (_, refl, touches _ objects _ (a ∷ []) s (inserted_object refl), keeps_begun _ _ s)

  -- A read of a row that is there throws, or gives the row, and changes nothing.
  abbrev pub ReadsRow : TimestampValue → conn.State → Outcome (Result conn prepared) → Type 0
  ReadsRow tv s r =
      (q : Result conn prepared) × (r ≡ returns q)
      × ((q.0 ≡ none) ⊎ (q.0 ≡ some ((some tv.timestamp, some tv.value) ∷ [])))
      × SameRows s q.1
      × SameBegun s q.1

  pub do_read-ReadsRow :
      (t : DataTable) (k : List Field) (tv : TimestampValue) (s : conn.State)
      → IsKey t k
      → row s t (values k) ≡ some tv
      → ReadsRow tv s (do_read conn prepared t k s)
  unfolding do_read exec_prepared prepared_as prepared bind_from operand_value first_one first_three
  do_read-ReadsRow t k tv s (IsKey.edge a b d) here = (
    _,
    refl,
    finds edges _ _ (a ∷ b ∷ d ∷ []) s tv (by_triple refl refl refl) here,
    reads_only edges _ _ s,
    keeps_begun _ _ s,
  )
  do_read-ReadsRow t k tv s (IsKey.object a) here = (
    _,
    refl,
    finds objects _ _ (a ∷ []) s tv (by_id refl) here,
    reads_only objects _ _ s,
    keeps_begun _ _ s,
  )
