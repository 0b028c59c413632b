-- ===== src/Pq/Find.antt =====
-- Whether a statement with its parameters finds a row of the table of edges.
use taobench.Prelude.{ℤ, Bytes, Bool, false, Option, some, none}
use taobench.Db.{EdgeRow}
use taobench.Sql.{Statement, insert_unless, delete, select, scan, Bindings, satisfies}

abbrev pub finds : (Bytes → ℤ) → Bindings → Statement → EdgeRow → Bool
finds to_number bs (insert_unless os w) r = satisfies to_number bs w r
finds to_number bs (delete t w) r = satisfies to_number bs w r
finds to_number bs (select t w) r = satisfies to_number bs w r
finds to_number bs (scan w ordered n) r = satisfies to_number bs w r
finds to_number bs _ r = false

abbrev pub finds_any : (Bytes → ℤ) → Bindings → Option Statement → EdgeRow → Bool
finds_any to_number bs none r = false
finds_any to_number bs (some stmt) r = finds to_number bs stmt r
