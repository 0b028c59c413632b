-- ===== src/Database.antt =====
-- The abstract class `DB` of src/db.h: the operations that a driver gives, over the state of the
-- database that it speaks to, and the contract that the comments of the class state.
use taobench.Prelude.{ℕ, ℤ, List, [], ◌∷◌, Bool, ◌≡◌}
use taobench.Db.{
  DataTable, edges, objects, Field, TimestampValue, DbOperation, Operation, Status, Outcome,
  edge_key, object_key,
}

-- A method returns its status, the buffer after it and the new state, or it does not return.
pub record Database : Type 1 where
  pub State : Type 0
  pub execute :
      DbOperation → List TimestampValue → State → Outcome (Status × List TimestampValue × State)
  pub execute_transaction :
      List DbOperation
      → List TimestampValue
      → Bool
      → State
      → Outcome (Status × List TimestampValue × State)
  pub batch_insert :
      DataTable → List (List Field) → List TimestampValue → State → Outcome (Status × State)
  pub batch_read :
      DataTable
      → List Field
      → List Field
      → ℕ
      → List (List Field)
      → State
      → Outcome (Status × List (List Field) × State)

-- The two formats of a key.
pub data IsKey : DataTable → List Field → Type 0 where
  edge : (id1 id2 type : ℤ) → IsKey edges (edge_key id1 id2 type)
  object : (id : ℤ) → IsKey objects (object_key id)

-- Every operation has a key in one of the two formats.
abbrev pub HaveKeys : List DbOperation → Type 0
HaveKeys [] = Unit
HaveKeys (op ∷ ops) = IsKey op.table op.key × HaveKeys ops

-- Every operation is a read of a key in one of the two formats.
abbrev pub AreReads : List DbOperation → Type 0
AreReads [] = Unit
AreReads (op ∷ ops) = (IsKey op.table op.key × (op.operation ≡ Operation.read)) × AreReads ops
