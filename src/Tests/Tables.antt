-- ===== src/Tests/Tables.antt =====
-- Concrete databases for the examples: a server that runs the guarded inserts, a database that takes
-- every batch, and one that reads pages of a fixed table of edges.
use taobench.Prelude.{
  ℕ, ℤ, pos, Bytes, List, [], ◌∷◌, ◌++◌, Bool, true, false, any, take, map, Option, none, some, ◌≡◌,
  refl, inl, inr, All, length, Bool-cases, Option-cases,
}
use taobench.Db.{
  DataTable, edges, objects, Field, TimestampValue, Edge, EdgeType, EdgeRow, Status, k_ok,
  k_not_implemented, returns,
}
use taobench.Db.Incompatible.{key_of}
use taobench.Database.{Database, IsKey}
use taobench.Sql.{
  Statement, insert_unless, Operand, Where, Bindings, satisfies, Server, Reply, rows, error,
}
use taobench.Sql.Guard.{row_from, values_of, EdgeServer, InsertsUnless}
use taobench.Loader.Buffers.{Row, rows_of, InsertsBatches}
use taobench.Loader.Order.{Key, key_lt, select, IsSorted}
use taobench.Loader.BatchRead.{ReadsPages}

-- A text that stands for no number.
abbrev pub zero_of : Bytes → ℤ
zero_of v = pos 0

abbrev add_row : Option EdgeRow → List EdgeRow → Reply × List EdgeRow
add_row none t = (error 1, t)
add_row (some r) t = (rows [], r ∷ t)

abbrev insert_by : Bool → List Operand → Bindings → List EdgeRow → Reply × List EdgeRow
insert_by true os bs t = (rows [], t)
insert_by false os bs t = add_row (row_from (values_of bs os)) t

abbrev execute_on : Statement → Bindings → List EdgeRow → Reply × List EdgeRow
execute_on (insert_unless os w) bs t = insert_by (any (satisfies zero_of bs w) t) os bs t
execute_on _ bs t = (error 2, t)

abbrev pub edge_table : Server
edge_table = record {
  State = List EdgeRow;
  execute = execute_on;
  execute_script = λ ss t. ([], some 2, t);
  query = λ stmt t. (false, t);
  query_keys = λ stmt t. (none, t);
  rollback = λ t. (none, t);
}

pub edge_table_inserts :
    (os : List Operand) (w : Where) (bs : Bindings) (t : List EdgeRow)
    → InsertsUnless zero_of os w bs t (execute_on (insert_unless os w) bs t).1
edge_table_inserts os w bs t = elim (Bool-cases (any (satisfies zero_of bs w) t)) [
  | inl e ↦ inl (rw e refl)
  | inr e ↦ (elim (Option-cases (row_from (values_of bs os))) [
    | inl f ↦ inl (rw (e, f) refl)
    | inr (r, f) ↦ inr (e, (r, f, rw (e, f) refl))
  ])
]

unfoldable pub edge_table_lem : EdgeServer edge_table zero_of
edge_table_lem = record { table = λ t. t; inserts = edge_table_inserts }

abbrev insert_batch :
    DataTable → List (List Field) → List TimestampValue → List Row × List Row → List Row × List Row
insert_batch edges ks vs (es, os) = (es ++ rows_of ks vs, os)
insert_batch objects ks vs (es, os) = (es, os ++ rows_of ks vs)

abbrev pub two_tables : Database
two_tables = record {
  State = List Row × List Row;
  execute = λ op buffer s. returns (k_not_implemented, buffer, s);
  execute_transaction = λ ops buffer ro s. returns (k_not_implemented, buffer, s);
  batch_insert = λ t ks vs s. returns (k_ok, insert_batch t ks vs s);
  batch_read = λ t lo hi m buffer s. returns (k_not_implemented, buffer, s);
}

abbrev table_of : DataTable → List Row × List Row → List Row
table_of edges (es, os) = es
table_of objects (es, os) = os

pub two_tables_inserts :
    (t : DataTable) (ks : List (List Field)) (vs : List TimestampValue) (s : List Row × List Row)
    → All (IsKey t) ks
    → length ks ≡ length vs
    → (status : Status) × (s' : List Row × List Row) × (two_tables.batch_insert t ks vs s
        ≡ returns (status, s'))
      × (status ≡ k_ok → table_of t s' ≡ table_of t s ++ rows_of ks vs)
      × (t ≡ edges → table_of objects s' ≡ table_of objects s)
      × (t ≡ objects → table_of edges s' ≡ table_of edges s)
two_tables_inserts edges ks vs (es, os) well pairs =
    (k_ok, insert_batch edges ks vs (es, os), refl, (λ _. refl), (λ _. refl), (λ e. absurd (cc)))
two_tables_inserts objects ks vs (es, os) well pairs =
    (k_ok, insert_batch objects ks vs (es, os), refl, (λ _. refl), (λ e. absurd (cc)), (λ _. refl))

unfoldable pub two_tables_lem : InsertsBatches two_tables
two_tables_lem = record { table = table_of; inserts = two_tables_inserts }

abbrev edge_at : ℕ → ℕ → Edge
edge_at a b = record { primary_key = pos a; remote_key = pos b; type = EdgeType.other }

-- Three edges of the first shard and one of the second.
abbrev pub four_edges : List Edge
four_edges = edge_at 1 5 ∷ edge_at 2 3 ∷ edge_at 2 4 ∷ edge_at 144115188075855873 9 ∷ []

pub four_edges-IsSorted : IsSorted four_edges
unfolding key_lt
four_edges-IsSorted = ((refl, (refl, (refl, tt))), ((refl, (refl, tt)), ((refl, tt), (tt, tt))))

abbrev key_from : List Field → Key
key_from (a ∷ b ∷ c ∷ []) = (a.value, b.value, c.value)
key_from _ = (pos 0, pos 0, pos 0)

abbrev pub paged : Database
paged = record {
  State = Unit {0};
  execute = λ op buffer s. returns (k_not_implemented, buffer, s);
  execute_transaction = λ ops buffer ro s. returns (k_not_implemented, buffer, s);
  batch_insert = λ t ks vs s. returns (k_not_implemented, s);
  batch_read = λ t lo hi n buffer s.
      returns
        (k_ok, buffer ++ map key_of (take n (select (key_from lo) (key_from hi) four_edges)), s);
}

unfoldable pub paged_lem : ReadsPages paged
paged_lem = record {
  table = λ s. four_edges;
  sorted = λ s. four_edges-IsSorted;
  reads = λ lo hi n s. (s, refl, refl);
}
