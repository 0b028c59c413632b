-- ===== src/Db/Edges.antt =====
-- src/edge.h: the kinds of edge, as text and as the number that the tables store.
use taobench.Prelude.{
  ℕ, ℤ, pos, negsuc, Bytes, codes, eq_bytes, if◌then◌else◌, ◌==◌, ◌%◌, ◌-◌, ◌^◌, Option, some, none,
  ◌≡◌, refl,
}

pub data EdgeType : Type 0 where
  unique bidirectional unique_and_bidirectional other : EdgeType

pub record Edge : Type 0 where
  pub primary_key : ℤ
  pub remote_key : ℤ
  pub type : EdgeType

-- `EdgeStringToType`.
unfoldable pub edge_string_to_type : Bytes → EdgeType
edge_string_to_type s =
    if eq_bytes s (codes "unique")
    then unique
    else if eq_bytes s (codes "bidirectional")
    then bidirectional
    else if eq_bytes s (codes "unique_and_bidirectional")
    then unique_and_bidirectional
    else other

-- `EdgeTypeToString`.
unfoldable pub edge_type_to_string : EdgeType → Bytes
edge_type_to_string unique = codes "unique"
edge_type_to_string bidirectional = codes "bidirectional"
edge_type_to_string unique_and_bidirectional = codes "unique_and_bidirectional"
edge_type_to_string other = codes "other"

-- `static_cast<int64_t>(type)`.
unfoldable pub type_value : EdgeType → ℤ
type_value unique = pos 0
type_value bidirectional = pos 1
type_value unique_and_bidirectional = pos 2
type_value other = pos 3

-- A row of the table of edges.
pub record EdgeRow : Type 0 where
  pub id1 : ℤ
  pub id2 : ℤ
  pub type : ℤ
  pub timestamp : ℤ
  pub value : Bytes

-- The row that stores an edge.
abbrev pub row_of : Edge → ℤ → Bytes → EdgeRow
row_of e t v = record {
  id1 = e.primary_key;
  id2 = e.remote_key;
  type = type_value e.type;
  timestamp = t;
  value = v;
}

-- The bit pattern that an `int64_t` leaves in the 32 bits of the enum's underlying `int`.
unfoldable pub low_32 : ℤ → ℕ
low_32 (pos n) = n % 2 ^ 32
low_32 (negsuc n) = 2 ^ 32 - 1 - n % 2 ^ 32

-- `static_cast<EdgeType>(value)`, `none` for a value that is no enumerator.
unfoldable pub cast_edge_type : ℤ → Option EdgeType
unfolding low_32
cast_edge_type v =
    let n = low_32 v in
    if n == 0
    then some unique
    else if n == 1
    then some bidirectional
    else if n == 2
    then some unique_and_bidirectional
    else if n == 3
    then some other
    else none

pub cast_edge_type-type_value : (t : EdgeType) → cast_edge_type (type_value t) ≡ some t
unfolding cast_edge_type type_value
cast_edge_type-type_value unique = refl
cast_edge_type-type_value bidirectional = refl
cast_edge_type-type_value unique_and_bidirectional = refl
cast_edge_type-type_value other = refl

-- Every kind of edge is read back from its name.
pub edge_string_to_type-edge_type_to_string :
    (t : EdgeType) → edge_string_to_type (edge_type_to_string t) ≡ t
unfolding edge_string_to_type edge_type_to_string
edge_string_to_type-edge_type_to_string unique = refl
edge_string_to_type-edge_type_to_string bidirectional = refl
edge_string_to_type-edge_type_to_string unique_and_bidirectional = refl
edge_string_to_type-edge_type_to_string other = refl
