-- ===== src/Sql/Syntax.antt =====
-- Statements, their parameters, and conditions evaluated on a row. A quoted text stands for the text
-- between the quotes as it is, so it must hold no quote and no escape character.
use taobench.Prelude.{
  ℕ, ℤ, Bytes, eq_bytes, ◌==◌, ◌==ℤ◌, ltb_ℤ, Bool, false, ◌&&◌, ◌||◌, if◌then◌else◌, List, [], ◌∷◌,
  Option, some, none,
}
use taobench.Db.{DataTable, EdgeRow}

-- A value bound to a parameter: a number or a text.
pub data Value : Type 0 where
  int : ℤ → Value
  text : Bytes → Value

-- A parameter: `?` or `$n` by its position, `@name` by its name.
pub data Slot : Type 0 where
  nth : ℕ → Slot
  named : Bytes → Slot

pub data Operand : Type 0 where
  lit : ℤ → Operand
  quoted : Bytes → Operand
  slot : Slot → Operand

pub data Column : Type 0 where
  id id1 id2 type timestamp : Column

pub data Where : Type 0 where
  eq lt gt : Column → Operand → Where
  and or : Where → Where → Where
  -- (id1, id2, type) > (a, b, c), and <
  after before : Operand → Operand → Operand → Where

pub data Statement : Type 0 where
  -- SELECT timestamp, value FROM t WHERE w
  select : DataTable → Where → Statement
  -- INSERT INTO t (keys…, timestamp, value) VALUES (…)
  insert_values : DataTable → List Operand → Statement
  -- INSERT INTO edges (…) SELECT … WHERE NOT EXISTS (SELECT 1 FROM edges WHERE w)
  insert_unless : List Operand → Where → Statement
  -- DELETE FROM t WHERE w
  delete : DataTable → Where → Statement
  -- UPDATE t SET timestamp = a, value = b WHERE w
  update : DataTable → Operand → Operand → Where → Statement
  -- INSERT INTO t (keys…, timestamp, value) VALUES (…), (…)
  insert_rows : DataTable → List (List Operand) → Statement
  -- SELECT id1, id2, type FROM edges WHERE w, with ORDER BY id1, id2, type or without, LIMIT n
  scan : Where → Bool → Operand → Statement

abbrev pub Bindings : Type 0
Bindings = List (Slot × Value)

abbrev pub same_slot : Slot → Slot → Bool
same_slot (nth a) (nth b) = a == b
same_slot (named a) (named b) = eq_bytes a b
same_slot _ _ = false

unfoldable pub bound : Bindings → Slot → Option Value
bound [] s = none
bound ((t, v) ∷ bs) s = if same_slot t s then some v else bound bs s

unfoldable pub operand_value : Bindings → Operand → Option Value
unfolding bound
operand_value bs (lit n) = some (int n)
operand_value bs (quoted v) = some (text v)
operand_value bs (slot s) = bound bs s

unfoldable pub cell : EdgeRow → Column → Option ℤ
cell r Column.id = none
cell r Column.id1 = some r.id1
cell r Column.id2 = some r.id2
cell r Column.type = some r.type
cell r Column.timestamp = some r.timestamp

-- `to_number` is the number that the server takes a text for where it compares it with a number.
module _ (to_number : Bytes → ℤ) where
  unfoldable pub compare_with : (ℤ → ℤ → Bool) → Option ℤ → Option Value → Bool
  compare_with test (some a) (some (int b)) = test a b
  compare_with test (some a) (some (text b)) = test a (to_number b)
  compare_with test _ _ = false

  -- The tuples of SQL compare by their first columns that differ.
  unfoldable pub tuple_compares :
      (ℤ → ℤ → Bool) → EdgeRow → Option Value → Option Value → Option Value → Bool
  unfolding compare_with
  tuple_compares test r x y z =
      compare_with test (some r.id1) x
      || (compare_with ◌==ℤ◌ (some r.id1) x
          && (compare_with test (some r.id2) y
              || (compare_with ◌==ℤ◌ (some r.id2) y && compare_with test (some r.type) z)))

  unfoldable pub satisfies : Bindings → Where → EdgeRow → Bool
  unfolding compare_with operand_value cell tuple_compares
  satisfies bs (eq c o) r = compare_with ◌==ℤ◌ (cell r c) (operand_value bs o)
  satisfies bs (lt c o) r = compare_with ltb_ℤ (cell r c) (operand_value bs o)
  satisfies bs (gt c o) r = compare_with (λ a b. ltb_ℤ b a) (cell r c) (operand_value bs o)
  satisfies bs (and v w) r = satisfies bs v r && satisfies bs w r
  satisfies bs (or v w) r = satisfies bs v r || satisfies bs w r
  satisfies bs (after x y z) r =
      tuple_compares (λ a b. ltb_ℤ b a) r (operand_value bs x) (operand_value bs y)
        (operand_value bs z)
  satisfies bs (before x y z) r =
      tuple_compares ltb_ℤ r (operand_value bs x) (operand_value bs y) (operand_value bs z)
