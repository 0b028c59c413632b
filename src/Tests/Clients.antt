-- ===== src/Tests/Clients.antt =====
-- Concrete clients of Spanner for the examples.
use taobench.Prelude.{
  ℕ, ℤ, pos, ◌==ℤ◌, Bytes, codes, List, [], ◌∷◌, ◌++◌, Bool, true, false, ◌&&◌, take, map, Option,
  none, some, ◌≡◌, refl, ap, if◌then◌else◌,
}
use taobench.Db.{DataTable, edges, objects, TimestampValue, Edge, EdgeRow}
use taobench.Sql.{scan, Value, int, satisfies, operand_value, Reply, rows, error}
use taobench.Loader.Order.{Key, key}
use taobench.Loader.Scans.{Stored, found_edges}
use taobench.Spanner.Statements.{Bound}
use taobench.Spanner.Client.{SpannerClient}
use taobench.Spanner.Inserts.{EdgeClient}
use taobench.Spanner.ReadTransactions.{AnswersReads}
use taobench.Spanner.Pages
use taobench.Tests.Tables.{zero_of, edge_table, edge_table_inserts, four_edges, four_edges-IsSorted}

-- A Spanner over a table of edges.
abbrev has_values : List ℤ → EdgeRow → Bool
has_values (a ∷ b ∷ c ∷ []) r = (r.id1 ==ℤ a) && (r.id2 ==ℤ b) && (r.type ==ℤ c)
has_values _ r = false

abbrev values_at : List ℤ → List EdgeRow → List TimestampValue
values_at vs [] = []
values_at vs (r ∷ t) =
    let rest = values_at vs t in
    if has_values vs r then record { timestamp = r.timestamp; value = r.value } ∷ rest else rest

abbrev rows_at : DataTable → List (List ℤ) → List EdgeRow → List TimestampValue
rows_at edges [] t = []
rows_at edges (vs ∷ keys) t = values_at vs t ++ rows_at edges keys t
rows_at objects keys t = []

abbrev failure_of : Reply → Option Bytes
failure_of (rows _) = none
failure_of (error _) = some (codes "failed")

abbrev commit_on : List Bound → List EdgeRow → Option Bytes × List EdgeRow
commit_on ((stmt, bs) ∷ []) t =
    let (reply, t') = edge_table.execute stmt bs t in (failure_of reply, t')
commit_on _ t = (none, t)

abbrev pub spanner_edges : SpannerClient
spanner_edges = record {
  State = List EdgeRow;
  read = λ t keys s. (rows_at t keys s, none);
  query = λ stmt s. ([], some (codes "no scan"));
  commit = commit_on;
  commit_rows = λ t rs s. (none, s);
}

unfoldable pub spanner_edges_lem : EdgeClient spanner_edges zero_of
spanner_edges_lem = record { table = λ t. t; inserts = edge_table_inserts }

pub rows_at-none : (t : DataTable) (s : List EdgeRow) → rows_at t [] s ≡ []
rows_at-none edges s = refl
rows_at-none objects s = refl

unfoldable pub spanner_reads : AnswersReads spanner_edges
spanner_reads = record { rows = rows_at; answers = λ t keys s. refl; none_asked = rows_at-none }

-- The rows of four edges, which a query reads.
abbrev with_values : List Edge → List Stored
with_values [] = []
with_values (e ∷ es) = (e, pos 1, codes "v") ∷ with_values es

abbrev pub stored_edges : List Stored
stored_edges = with_values four_edges

abbrev rows_up_to : Option Value → List Edge → List Key
rows_up_to (some (int (pos n))) es = map key (take n es)
rows_up_to _ es = []

abbrev query_on : Bound → List Key × Option Bytes
query_on (scan w true limit, bs) =
    (rows_up_to (operand_value bs limit) (found_edges (satisfies zero_of bs w) stored_edges), none)
query_on _ = ([], some (codes "no scan"))

abbrev pub spanner_scans : SpannerClient
spanner_scans = record {
  State = Unit {0};
  read = λ t keys s. ([], none);
  query = λ stmt s. query_on stmt;
  commit = λ stmts s. (none, s);
  commit_rows = λ t rs s. (none, s);
}

pub rows_up_to_limit :
    (v : Option Value) (n : ℕ) (es : List Edge)
    → v ≡ some (int (pos n))
    → rows_up_to v es ≡ map key (take n es)
rows_up_to_limit v n es e = rw e refl

unfoldable pub spanner_scans_lem : Pages.AnswersScans spanner_scans zero_of
spanner_scans_lem = record {
  stored = λ s. stored_edges;
  sorted = λ s. four_edges-IsSorted;
  answers = λ w limit bs n s h.
      ap (λ ks. (ks, none))
        (rows_up_to_limit (operand_value bs limit) n
          (found_edges (satisfies zero_of bs w) stored_edges) h);
}
