-- ===== src/MySql/Deletes.antt =====
-- `MySqlDB::Delete` on the table of edges binds the type as a text.
use taobench.Prelude.{ℤ, pos, ◌==ℤ◌, ltb_ℤ, Bytes, Bool, false, ◌&&◌, ◌≡◌, arith}
use taobench.Db.{Edge, EdgeType, EdgeRow, type_value, cast_edge_type, edge_type_to_string}
use taobench.Sql.{Statement, delete, satisfies, Bindings}
use taobench.MySql.Statements.{bind_from, build_delete_edge}
use taobench.MySql.Driver.{delete_edge_bindings}

abbrev holds : (Bytes → ℤ) → Bindings → Statement → EdgeRow → Bool
holds to_number bs (delete t w) r = satisfies to_number bs w r
holds to_number bs _ r = false

-- Whether the statement of `Delete` for the edge removes the row.
unfoldable pub removes : (Bytes → ℤ) → ℤ → Edge → EdgeRow → Bool
removes to_number time e r =
    holds to_number
      (bind_from 0 (delete_edge_bindings time e.primary_key e.remote_key (type_value e.type)))
      build_delete_edge r

-- What the interface asks for: the row has the edge's key, and an older timestamp.
unfoldable pub is_due : ℤ → Edge → EdgeRow → Bool
is_due time e r =
    ltb_ℤ r.timestamp time
    && (r.id1 ==ℤ e.primary_key)
    && (r.id2 ==ℤ e.remote_key)
    && (r.type ==ℤ type_value e.type)

removes_at :
    (to_number : Bytes → ℤ) (time p q : ℤ) (t : EdgeType) (r : EdgeRow)
    → removes to_number time (record { primary_key = p; remote_key = q; type = t }) r ≡ (
        ltb_ℤ r.timestamp time
        && (r.id1 ==ℤ p)
        && (r.id2 ==ℤ q)
        && (r.type ==ℤ to_number (edge_type_to_string t)))
unfolding removes delete_edge_bindings type_value cast_edge_type build_delete_edge bind_from
    satisfies
removes_at to_number time p q EdgeType.unique r = ground arith
removes_at to_number time p q _ r = ground arith

-- With a server that takes the names of the edge types for 0 where it compares them with a number,
-- as MySQL takes every text that does not begin with a digit, the statement removes a row of the
-- pair that is older than the timestamp exactly if its type is 0: it removes the unique edge
-- whatever type was asked for, and no edge of another type.
pub removes_unique_only :
    (to_number : Bytes → ℤ) (time : ℤ) (e : Edge) (r : EdgeRow)
    → ((t : EdgeType) → to_number (edge_type_to_string t) ≡ pos 0)
    → removes to_number time e r
      ≡ is_due time
          (record {
            primary_key = e.primary_key;
            remote_key = e.remote_key;
            type = EdgeType.unique;
          })
          r
unfolding is_due type_value
removes_unique_only to_number time e r h =
    ground (arith, removes_at to_number time e.primary_key e.remote_key e.type r, h e.type)
