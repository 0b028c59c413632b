-- ===== src/Pq/KeyedRows.antt =====
-- What PostgreSQL and YugabyteDB document of statements whose condition fixes the primary key of their
-- table: they find or touch the row of this key at most. And of a work: what its statements make of the
-- rows is kept by a commit, and gone after it is destroyed. No other client writes meanwhile.
use taobench.Prelude.{ℤ, List, [], ◌∷◌, ◌≡◌, ◌⊎◌, Option, some, none, InRange64}
use taobench.Db.{DataTable, edges, objects, TimestampValue}
use taobench.Sql.{
  Statement, select, insert_values, insert_unless, delete, update, Operand, Column, Where, eq, and,
  Bindings, int, operand_value,
}
use taobench.Pq.Conditions.{triple_is}
use taobench.Pq.Connection.{Connection}

-- A condition that holds of no row but the one with this primary key.
pub data Pins : DataTable → Where → Bindings → List ℤ → Type 0 where
  by_id :
      {bs : Bindings} {o : Operand} {i : ℤ}
      → operand_value bs o ≡ some (int i)
      → Pins objects (eq Column.id o) bs (i ∷ [])
  by_triple :
      {bs : Bindings} {a b c : Operand} {x y z : ℤ}
      → operand_value bs a ≡ some (int x)
      → operand_value bs b ≡ some (int y)
      → operand_value bs c ≡ some (int z)
      → Pins edges (triple_is a b c) bs (x ∷ y ∷ z ∷ [])
  also :
      {t : DataTable} {v w : Where} {bs : Bindings} {k : List ℤ}
      → Pins t w bs k
      → Pins t (and w v) bs k

-- A statement that writes the row with this primary key at most.
pub data Touches : Statement → DataTable → Bindings → List ℤ → Type 0 where
  updated :
      {t : DataTable} {a b : Operand} {w : Where} {bs : Bindings} {k : List ℤ}
      → Pins t w bs k
      → Touches (update t a b w) t bs k
  deleted :
      {t : DataTable} {w : Where} {bs : Bindings} {k : List ℤ}
      → Pins t w bs k
      → Touches (delete t w) t bs k
  inserted_object :
      {bs : Bindings} {o : Operand} {os : List Operand} {i : ℤ}
      → operand_value bs o ≡ some (int i)
      → Touches (insert_values objects (o ∷ os)) objects bs (i ∷ [])
  inserted_edge :
      {bs : Bindings} {a b c : Operand} {os : List Operand} {w : Where} {x y z : ℤ}
      → operand_value bs a ≡ some (int x)
      → operand_value bs b ≡ some (int y)
      → operand_value bs c ≡ some (int z)
      → Touches (insert_unless (a ∷ b ∷ c ∷ os) w) edges bs (x ∷ y ∷ z ∷ [])

pub record KeyedRows (conn : Connection) : Type 0 where
  -- the row with a primary key, as a statement would see it, and as it was when the work was begun
  pub row : conn.State → DataTable → List ℤ → Option TimestampValue
  pub begun : conn.State → DataTable → List ℤ → Option TimestampValue
  pub in_range :
      (s : conn.State) (t : DataTable) (k : List ℤ) (tv : TimestampValue)
      → row s t k ≡ some tv
      → InRange64 tv.timestamp
  pub finds :
      (t : DataTable) (w : Where) (bs : Bindings) (k : List ℤ) (s : conn.State)
      (tv : TimestampValue)
      → Pins t w bs k
      → row s t k ≡ some tv
      → ((conn.exec_prepared (select t w) bs s).0 ≡ none)
        ⊎ ((conn.exec_prepared (select t w) bs s).0
            ≡ some ((some tv.timestamp, some tv.value) ∷ []))
  pub reads_only :
      (t : DataTable) (w : Where) (bs : Bindings) (s : conn.State) (u : DataTable) (l : List ℤ)
      → row (conn.exec_prepared (select t w) bs s).1 u l ≡ row s u l
  pub touches :
      (stmt : Statement) (t : DataTable) (bs : Bindings) (k : List ℤ) (s : conn.State)
      → Touches stmt t bs k
      → (u : DataTable) (l : List ℤ)
      → ((u ≡ t) × (l ≡ k)) ⊎ (row (conn.exec_prepared stmt bs s).1 u l ≡ row s u l)
  pub keeps_begun :
      (stmt : Statement) (bs : Bindings) (s : conn.State) (u : DataTable) (l : List ℤ)
      → begun (conn.exec_prepared stmt bs s).1 u l ≡ begun s u l
  pub starts :
      (s : conn.State) (u : DataTable) (l : List ℤ)
      → (row (conn.start_work s).1 u l ≡ row s u l) × (begun (conn.start_work s).1 u l ≡ row s u l)
  -- a commit keeps the rows, or it throws, and may have kept them or not
  pub commits :
      (s : conn.State)
      → ((u : DataTable) (l : List ℤ) → row (conn.commit s).1 u l ≡ row s u l)
        ⊎ ((u : DataTable) (l : List ℤ) → row (conn.commit s).1 u l ≡ begun s u l)
  pub aborts : (s : conn.State) (u : DataTable) (l : List ℤ) → row (conn.abort s) u l ≡ begun s u l
