-- ===== src/Db/Incompatible.antt =====
-- `GetIncompatibleKeys` of src/db_utils.cc: the keys that may not be in the table if an edge is to be
-- inserted, and what it means that such a key, which may leave out a column, is in the table.
use taobench.Prelude.{
  ℤ, pos, ◌==ℤ◌, Bytes, codes, eq_bytes, Bool, true, false, if◌then◌else◌, ◌&&◌, any, List, [], ◌∷◌,
  Option, some, none,
}
use taobench.Db.{
  Field, field, edge_key, edge_key_values, Outcome, returns, faults, ◌>>=◌, Fault, Edge, EdgeRow,
  row_of, EdgeType, type_value, cast_edge_type,
}

-- The branches of `GetIncompatibleKeys`, by the kind of the candidate.
unfoldable pub keys_by_type : ℤ → ℤ → Option EdgeType → Outcome (List (List Field))
keys_by_type id1 id2 (some EdgeType.other) = returns (
    (field (codes "id1") id1 ∷ field (codes "type") (type_value EdgeType.unique) ∷ [])
    ∷ (field (codes "id1") id1
        ∷ field (codes "type") (type_value EdgeType.unique_and_bidirectional)
        ∷ [])
    ∷ (field (codes "id1") id1
        ∷ field (codes "id2") id2
        ∷ field (codes "type") (type_value EdgeType.bidirectional)
        ∷ [])
    ∷ (field (codes "id1") id2 ∷ field (codes "id2") id1 ∷ [])
    ∷ [])
keys_by_type id1 id2 (some EdgeType.bidirectional) = returns (
    (field (codes "id1") id1 ∷ field (codes "type") (type_value EdgeType.unique) ∷ [])
    ∷ (field (codes "id1") id1
        ∷ field (codes "type") (type_value EdgeType.unique_and_bidirectional)
        ∷ [])
    ∷ (field (codes "id1") id1
        ∷ field (codes "id2") id2
        ∷ field (codes "type") (type_value EdgeType.other)
        ∷ [])
    ∷ (field (codes "id1") id2
        ∷ field (codes "id2") id1
        ∷ field (codes "type") (type_value EdgeType.other)
        ∷ [])
    ∷ (field (codes "id1") id2
        ∷ field (codes "id2") id1
        ∷ field (codes "type") (type_value EdgeType.unique)
        ∷ [])
    ∷ [])
keys_by_type id1 id2 (some EdgeType.unique) =
    returns (
      (field (codes "id1") id1 ∷ [])
      ∷ (field (codes "id1") id2 ∷ field (codes "id2") id1 ∷ [])
      ∷ [])
keys_by_type id1 id2 (some EdgeType.unique_and_bidirectional) = returns (
    (field (codes "id1") id1 ∷ [])
    ∷ (field (codes "id1") id2
        ∷ field (codes "id2") id1
        ∷ field (codes "type") (type_value EdgeType.other)
        ∷ [])
    ∷ (field (codes "id1") id2
        ∷ field (codes "id2") id1
        ∷ field (codes "type") (type_value EdgeType.unique)
        ∷ [])
    ∷ [])
keys_by_type id1 id2 none = faults Fault.invalid_argument

unfoldable pub get_incompatible_keys : List Field → Outcome (List (List Field))
unfolding keys_by_type
get_incompatible_keys key = do
  (id1, id2, type) ← edge_key_values key
  keys_by_type id1 id2 (cast_edge_type type)

-- "WHERE id1 = a AND id2 = b": a column of a row, and a key with some of the columns.
unfoldable pub column : Bytes → EdgeRow → Option ℤ
column n r =
    if eq_bytes n (codes "id1")
    then some r.id1
    else if eq_bytes n (codes "id2")
    then some r.id2
    else if eq_bytes n (codes "type")
    then some r.type
    else none

unfoldable pub is_value : Option ℤ → ℤ → Bool
is_value none v = false
is_value (some w) v = w ==ℤ v

unfoldable pub row_matches : EdgeRow → List Field → Bool
unfolding column is_value
row_matches r [] = true
row_matches r (f ∷ fs) = is_value (column f.name r) f.value && row_matches r fs

abbrev pub key_of : Edge → List Field
key_of e = edge_key e.primary_key e.remote_key (type_value e.type)

unfoldable pub excluded_by : Outcome (List (List Field)) → EdgeRow → Bool
excluded_by (returns keys) r = any (row_matches r) keys
excluded_by (faults x) r = false

-- Whether the row keeps the candidate `e` out: it has one of the keys that `GetIncompatibleKeys` lists.
unfoldable pub excludes : Edge → EdgeRow → Bool
unfolding excluded_by row_matches get_incompatible_keys
excludes e r = excluded_by (get_incompatible_keys (key_of e)) r

-- The same between two edges.
unfoldable pub conflicts : Edge → Edge → Bool
unfolding excludes
conflicts e f = excludes e (row_of f (pos 0) [])
