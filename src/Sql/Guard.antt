-- ===== src/Sql/Guard.antt =====
-- What a driver's guarded insert must do: add the row of the new edge unless a row of the table is
-- incompatible with it. The server's part is stated as the documented effect of
-- `INSERT … SELECT … WHERE NOT EXISTS (SELECT 1 FROM edges WHERE w)`.
use taobench.Prelude.{
  ℤ, Bytes, false, any, List, [], ◌∷◌, Option, some, none, ◌≡◌, refl, ◌⊎◌, inl, inr, fun_ext,
}
use taobench.Db.{Edge, EdgeRow, row_of}
use taobench.Db.Incompatible.{excludes}
use taobench.Sql.Syntax.{
  insert_unless, Operand, Where, Bindings, Value, int, text, satisfies, operand_value,
}
use taobench.Sql.Connection.{Server}

unfoldable pub row_from : List (Option Value) → Option EdgeRow
row_from (some (int a) ∷ some (int b) ∷ some (int t) ∷ some (int time) ∷ some (text v) ∷ []) =
    some (record { id1 = a; id2 = b; type = t; timestamp = time; value = v })
row_from _ = none

abbrev pub values_of : Bindings → List Operand → List (Option Value)
values_of bs [] = []
values_of bs (o ∷ os) = operand_value bs o ∷ values_of bs os

-- A guarded insert leaves the table as it is, or finds no row that satisfies the condition and adds
-- the row of its values.
abbrev pub InsertsUnless :
    (Bytes → ℤ) → List Operand → Where → Bindings → List EdgeRow → List EdgeRow → Type 0
InsertsUnless to_number os w bs before after =
    (after ≡ before)
    ⊎ ((any (satisfies to_number bs w) before ≡ false)
        × ((r : EdgeRow) × (row_from (values_of bs os) ≡ some r) × (after ≡ r ∷ before)))

pub record EdgeServer (srv : Server) (to_number : Bytes → ℤ) : Type 0 where
  pub table : srv.State → List EdgeRow
  pub inserts :
      (os : List Operand) (w : Where) (bs : Bindings) (s : srv.State)
      → InsertsUnless to_number os w bs (table s) (table (srv.execute (insert_unless os w) bs s).1)

-- Every row is that of an edge, and no row is incompatible with one that was there before it.
abbrev pub IsConsistent : List EdgeRow → Type 0
IsConsistent [] = Unit
IsConsistent (r ∷ rs) =
    ((e : Edge) × (r ≡ row_of e r.timestamp r.value) × (any (excludes e) rs ≡ false))
    × IsConsistent rs

-- A condition that is exact for the edge keeps the table consistent.
pub InsertsUnless-IsConsistent :
    (to_number : Bytes → ℤ) (os : List Operand) (w : Where) (bs : Bindings) (e : Edge) (time : ℤ)
    (v : Bytes) (before after : List EdgeRow)
    → ((r : EdgeRow) → excludes e r ≡ satisfies to_number bs w r)
    → row_from (values_of bs os) ≡ some (row_of e time v)
    → InsertsUnless to_number os w bs before after
    → IsConsistent before
    → IsConsistent after
InsertsUnless-IsConsistent to_number os w bs e time v before after exact row (inl same) c =
    rw same c
InsertsUnless-IsConsistent to_number os w bs e time v before after exact row
      (inr (clear, (r, found, grown))) c =
    rw grown ((e, is_row r (cc), rw (fun_ext exact) clear), c)
  where
    is_row : (q : EdgeRow) → q ≡ row_of e time v → q ≡ row_of e q.timestamp q.value
    is_row q h = rw h refl
