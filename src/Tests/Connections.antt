-- ===== src/Tests/Connections.antt =====
-- Concrete connections of libpqxx for the examples.
use taobench.Prelude.{
  ℕ, suc, pos, codes, List, [], ◌∷◌, ◌++◌, Bool, true, false, map, Option, none, some, ◌≡◌, refl,
}
use taobench.Db.{DataTable, edges, objects, returns}
use taobench.Sql.{Statement, select, Where, ResultRow}
use taobench.Pq.Connection.{Connection}
use taobench.Pq.Works
use taobench.Crdb.LostRows.{AnswersLast, text_of}

-- What is committed, what the work has made of it, and whether there is a work.
abbrev pub Counting : Type 0
Counting = ℕ × ℕ × Bool

-- Whether a text changes a row: it does, unless it is empty or begins with a query.
abbrev changes : List (Option Statement) → Bool
changes [] = false
changes (some (select t w) ∷ rest) = false
changes (_ ∷ rest) = true

abbrev count : Bool → ℕ → ℕ
count true n = suc n
count false n = n

abbrev row_for : Option Statement → List ResultRow
row_for (some (select edges w)) = (some (pos 1), some (codes "edge")) ∷ []
row_for (some (select objects w)) = (some (pos 2), some (codes "object")) ∷ []
row_for _ = []

abbrev last_rows : List ResultRow → List (Option Statement) → List ResultRow
last_rows rs [] = rs
last_rows rs (x ∷ xs) = last_rows (row_for x) xs

abbrev pub counting : Connection
counting = record {
  State = Counting;
  exec_prepared = λ stmt bs s. (some (row_for (some stmt)), (s.0, suc s.1, s.2));
  exec_prepared_scan = λ stmt bs s. (some [], s);
  exec = λ stmts s. (some (last_rows [] stmts), (s.0, count (changes stmts) s.1, s.2));
  beyond = returns (none, none);
  start_work = λ s. (true, (s.0, s.0, true));
  commit = λ s. (true, (s.1, s.1, false));
  abort = λ s. (s.0, s.0, false);
}

unfoldable pub counting_works : Works.IsTransactional counting
counting_works = record {
  Content = ℕ;
  committed = λ s. s.0;
  pending = λ s. s.1;
  in_work = λ s. s.2;
  starts = λ s idle. (refl, refl);
  keeps = λ stmt bs s on. (refl, on);
  keeps_texts = λ stmts s on. (refl, on);
  aborts = λ s. (refl, refl);
  commits = λ s on. (refl, (λ done. refl), (λ failed. absurd (cc)));
}

pub last_rows-snoc :
    (rs : List ResultRow) (xs : List (Option Statement)) (x : Option Statement)
    → last_rows rs (xs ++ x ∷ []) ≡ row_for x
last_rows-snoc rs [] x = refl
last_rows-snoc rs (y ∷ xs) x = last_rows-snoc (row_for y) xs x

pub changes-queries :
    (qs : List (DataTable × Where)) (t : DataTable) (w : Where)
    → changes (map text_of qs ++ some (select t w) ∷ []) ≡ false
changes-queries [] t w = refl
changes-queries ((u, v) ∷ qs) t w = refl

unfoldable pub counting_last : AnswersLast counting
counting_last = record {
  rows = λ t w s. row_for (some (select t w));
  last_only = λ qs t w s.
      rw (last_rows-snoc [] (map text_of qs) (some (select t w)), changes-queries qs t w) refl;
  empty = λ s. refl;
}
