-- ===== src/Db.antt =====
-- src/db.h and src/edge.h: the values that every part of the program exchanges, and the outcome of
-- code that may throw, fail an assertion or read out of bounds.
mod Edges
pub mod Incompatible
pub mod Conflicts
use taobench.Prelude.{ℕ, ℤ, Bytes, codes, eq_bytes, List, [], ◌∷◌, Bool, true, false}
unfoldable pub use Edges.*

pub data Operation : Type 0 where
  insert read update scan read_modify_write delete read_transaction write_transaction : Operation
  max_op_type : Operation

pub data Status : Type 0 where
  k_ok k_error k_not_found k_not_implemented k_contention_error : Status

pub data DataTable : Type 0 where
  edges objects : DataTable

-- `DataTableToStr`; the other values of the enum class are not representable here.
unfoldable pub data_table_to_str : DataTable → Bytes
data_table_to_str edges = codes "edges"
data_table_to_str objects = codes "objects"

pub record Field : Type 0 where
  pub name : Bytes
  pub value : ℤ

pub record TimestampValue : Type 0 where
  pub timestamp : ℤ
  pub value : Bytes

pub record DbOperation : Type 0 where
  pub table : DataTable
  pub key : List Field
  pub time_and_value : TimestampValue
  pub operation : Operation

abbrev pub field : Bytes → ℤ → Field
field n v = record { name = n; value = v }

-- The key of an edge, in the three-field format of `DB::Read`.
abbrev pub edge_key : ℤ → ℤ → ℤ → List Field
edge_key id1 id2 type =
    field (codes "id1") id1 ∷ field (codes "id2") id2 ∷ field (codes "type") type ∷ []

abbrev pub object_key : ℤ → List Field
object_key id = field (codes "id") id ∷ []

-- How a call ends other than by returning.
pub data Fault : Type 0 where
  assertion invalid_argument runtime_error out_of_range out_of_bounds division_by_zero : Fault
  exception : Fault

pub data Outcome {ℓ} (A : Type ℓ) : Type ℓ where
  returns : A → Outcome A
  faults : Fault → Outcome A

infixl 5 ◌>>=◌ ◌>>◌
abbrev pub ◌>>=◌ {ℓ κ} : {A : Type ℓ} {B : Type κ} → Outcome A → (A → Outcome B) → Outcome B
returns a >>= f = f a
faults e >>= f = faults e

abbrev pub ◌>>◌ {ℓ} : {B : Type ℓ} → Outcome (Unit {0}) → Outcome B → Outcome B
m >> k = m >>= λ _. k

-- `assert(c)`, in a build that keeps assertions.
abbrev pub assert : Bool → Outcome (Unit {0})
assert true = returns tt
assert false = faults assertion

-- The assertions on an edge key that the loaders and the drivers share: three fields by their names,
-- and their values.
unfoldable pub edge_key_values : List Field → Outcome (ℤ × ℤ × ℤ)
edge_key_values (f ∷ g ∷ h ∷ []) = do
  assert (eq_bytes f.name (codes "id1"))
  assert (eq_bytes g.name (codes "id2"))
  assert (eq_bytes h.name (codes "type"))
  returns (f.value, g.value, h.value)
edge_key_values _ = faults assertion

unfoldable pub object_key_value : List Field → Outcome ℤ
object_key_value (f ∷ []) = do assert (eq_bytes f.name (codes "id")); returns f.value
object_key_value _ = faults assertion

-- `key[0].value`, and the first three values of a key, where the code does not look at the key's size.
unfoldable pub first_one : List Field → Outcome ℤ
first_one [] = faults Fault.out_of_bounds
first_one (f ∷ fs) = returns f.value

unfoldable pub first_three : List Field → Outcome (ℤ × ℤ × ℤ)
first_three (f ∷ g ∷ h ∷ rest) = returns (f.value, g.value, h.value)
first_three _ = faults Fault.out_of_bounds
