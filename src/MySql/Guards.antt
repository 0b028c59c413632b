-- ===== src/MySql/Guards.antt =====
-- The guards of `MySqlDB::Insert` against `GetIncompatibleKeys`: exact for three kinds of edge, and
-- short of one key for bidirectional edges.
use taobench.Prelude.{
  ℤ, ◌==ℤ◌, Bytes, Bool, true, false, ◌&&◌, ◌||◌, List, [], ◌∷◌, Option, some, none, ◌≡◌, refl,
  arith, ◌≢◌, ==ℤ_refl, ==ℤ_iff,
}
use taobench.Db.{Edge, EdgeType, EdgeRow, row_of, type_value, cast_edge_type, edge_key_values}
use taobench.Db.Incompatible.{excludes, conflicts, keys_by_type}
use taobench.Sql.{Where, Statement, insert_unless, Value, int, text, satisfies, Bindings}
use taobench.MySql.Statements.{
  p, bind_from, build_insert_other, build_insert_unique, build_insert_bidirectional,
  build_insert_unique_and_bidirectional,
}
use taobench.MySql.Driver.{insert_bindings, insert_statement}
use taobench.Sql.{Operand}

-- All that `Insert` binds for an edge.
abbrev pub insert_values_of : Edge → ℤ → Bytes → List Value
insert_values_of e time v =
    int e.primary_key
    ∷ int e.remote_key
    ∷ int (type_value e.type)
    ∷ int time
    ∷ text v
    ∷ insert_bindings e.primary_key e.remote_key e.type

abbrev pub inserted_operands : List Operand
inserted_operands = p 0 ∷ p 1 ∷ p 2 ∷ p 3 ∷ p 4 ∷ []

unfoldable pub guard_of : Statement → Option Where
guard_of (insert_unless os w) = some w
guard_of _ = none

abbrev holds : (Bytes → ℤ) → Bindings → Option Where → EdgeRow → Bool
holds to_number bs none r = false
holds to_number bs (some w) r = satisfies to_number bs w r

-- Whether the row stops the insert, by the condition of the edge's prepared statement.
unfoldable pub stops : (Bytes → ℤ) → ℤ → Bytes → Edge → EdgeRow → Bool
unfolding guard_of
stops to_number time v e r =
    holds to_number (bind_from 0 (insert_values_of e time v)) (guard_of (insert_statement e.type)) r

-- The row of the reverse edge, where that is unique and the candidate is bidirectional.
unfoldable pub is_missed : Edge → EdgeRow → Bool
is_missed e r = elim e.type [
  | EdgeType.bidirectional ↦
      (r.id1 ==ℤ e.remote_key)
      && (r.id2 ==ℤ e.primary_key)
      && (r.type ==ℤ type_value EdgeType.unique)
  | _ ↦ false
]

guard_at :
    (to_number : Bytes → ℤ) (time : ℤ) (v : Bytes) (p q : ℤ) (t : EdgeType) (r : EdgeRow)
    → excludes (record { primary_key = p; remote_key = q; type = t }) r ≡ (
        stops to_number time v (record { primary_key = p; remote_key = q; type = t }) r
        || is_missed (record { primary_key = p; remote_key = q; type = t }) r)
unfolding excludes stops is_missed keys_by_type edge_key_values cast_edge_type type_value
    insert_bindings insert_statement build_insert_other build_insert_unique
    build_insert_bidirectional build_insert_unique_and_bidirectional bind_from satisfies
guard_at to_number time v p q EdgeType.unique r = ground arith
guard_at to_number time v p q EdgeType.bidirectional r = ground arith
guard_at to_number time v p q EdgeType.unique_and_bidirectional r = ground arith
guard_at to_number time v p q EdgeType.other r = ground arith

-- A row is incompatible with the candidate exactly if the prepared statement's condition finds it or
-- it is the unique reverse of a bidirectional candidate.
pub guard_lem :
    (to_number : Bytes → ℤ) (time : ℤ) (v : Bytes) (e : Edge) (r : EdgeRow)
    → excludes e r ≡ (stops to_number time v e r || is_missed e r)
guard_lem to_number time v e r = guard_at to_number time v e.primary_key e.remote_key e.type r

-- For every two nodes the unique edge from `b` to `a` and the bidirectional edge from `a` to `b`
-- exclude each other, and yet the condition of the bidirectional insert does not find the row of the
-- unique edge, unless the nodes are one.
pub bidirectional_misses :
    (to_number : Bytes → ℤ) (time row_time : ℤ) (v row_v : Bytes) (a b : ℤ)
    → a ≢ b
    → let e : Edge = record { primary_key = a; remote_key = b; type = EdgeType.bidirectional } in
      let f : Edge = record { primary_key = b; remote_key = a; type = EdgeType.unique } in
      (conflicts e f ≡ true) × (stops to_number time v e (row_of f row_time row_v) ≡ false)
unfolding conflicts excludes stops keys_by_type edge_key_values cast_edge_type type_value
    insert_bindings insert_statement build_insert_bidirectional bind_from satisfies
bidirectional_misses to_number time row_time v row_v a b d =
    (ground (arith, ==ℤ_refl a, ==ℤ_refl b, ==ℤ_iff b a), ground (arith, ==ℤ_iff b a))

not_missed :
    (p q : ℤ) (t : EdgeType) (r : EdgeRow)
    → t ≢ EdgeType.bidirectional
    → is_missed (record { primary_key = p; remote_key = q; type = t }) r ≡ false
unfolding is_missed
not_missed p q EdgeType.bidirectional r d = absurd (d refl)
not_missed p q EdgeType.unique r d = refl
not_missed p q _ r d = refl

-- For the other three kinds the condition is exact.
pub guard_exact :
    (to_number : Bytes → ℤ) (time : ℤ) (v : Bytes) (e : Edge) (r : EdgeRow)
    → e.type ≢ EdgeType.bidirectional
    → excludes e r ≡ stops to_number time v e r
guard_exact to_number time v e r d =
    ground (arith, guard_lem to_number time v e r, not_missed e.primary_key e.remote_key e.type r d)
