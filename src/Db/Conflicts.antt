-- ===== src/Db/Conflicts.antt =====
-- When two edges exclude each other, said without the list of keys, and that the lists agree with it.
use taobench.Prelude.{
  ℤ, ◌==ℤ◌, Bool, true, false, ◌&&◌, ◌||◌, not, ◌≡◌, sym, arith, ==ℤ_comm, ◌∙◌, some,
}
use taobench.Db.{
  Edge, EdgeType, type_value, cast_edge_type, cast_edge_type-type_value, edge_key_values,
}
use taobench.Db.Incompatible.{conflicts, get_incompatible_keys, keys_by_type, key_of}

-- The kinds by which at most one edge may leave a node, and those that may have a reverse edge.
unfoldable pub is_unique : EdgeType → Bool
is_unique EdgeType.unique = true
is_unique EdgeType.unique_and_bidirectional = true
is_unique _ = false

unfoldable pub is_bidirectional : EdgeType → Bool
is_bidirectional EdgeType.bidirectional = true
is_bidirectional EdgeType.unique_and_bidirectional = true
is_bidirectional _ = false

abbrev differ : Bool → Bool → Bool
differ true b = not b
differ false b = b

-- Two edges exclude each other if they leave one node and one of them is unique; if one is the
-- reverse of the other and not both are bidirectional; or if they join the same nodes in the same
-- direction and only one of them is bidirectional.
unfoldable pub exclusive : Edge → Edge → Bool
unfolding is_unique is_bidirectional
exclusive e f =
    let same_source = f.primary_key ==ℤ e.primary_key in
    let same_target = f.remote_key ==ℤ e.remote_key in
    let reverse = (f.primary_key ==ℤ e.remote_key) && (f.remote_key ==ℤ e.primary_key) in
    (same_source && (is_unique e.type || is_unique f.type))
    || (reverse && not (is_bidirectional e.type && is_bidirectional f.type))
    || (same_source && same_target && differ (is_bidirectional e.type) (is_bidirectional f.type))

conflicts_at :
    (p r p' r' : ℤ) (t u : EdgeType)
    → conflicts
        (record { primary_key = p; remote_key = r; type = t })
        (record { primary_key = p'; remote_key = r'; type = u })
      ≡ exclusive
          (record { primary_key = p; remote_key = r; type = t })
          (record { primary_key = p'; remote_key = r'; type = u })
unfolding conflicts exclusive keys_by_type edge_key_values cast_edge_type type_value
conflicts_at p r p' r' EdgeType.unique EdgeType.unique = ground arith
conflicts_at p r p' r' EdgeType.unique _ = ground arith
conflicts_at p r p' r' EdgeType.bidirectional EdgeType.unique = ground arith
conflicts_at p r p' r' EdgeType.bidirectional _ = ground arith
conflicts_at p r p' r' EdgeType.unique_and_bidirectional EdgeType.unique = ground arith
conflicts_at p r p' r' EdgeType.unique_and_bidirectional _ = ground arith
conflicts_at p r p' r' EdgeType.other EdgeType.unique = ground arith
conflicts_at p r p' r' EdgeType.other _ = ground arith

-- The row of an edge `f` matches one of the keys that `GetIncompatibleKeys` lists for the edge `e`
-- exactly if the two exclude each other.
pub conflicts-eq-exclusive : (e f : Edge) → conflicts e f ≡ exclusive e f
conflicts-eq-exclusive e f =
    conflicts_at e.primary_key e.remote_key f.primary_key f.remote_key e.type f.type

exclusive_comm : (e f : Edge) → exclusive e f ≡ exclusive f e
unfolding exclusive
exclusive_comm e f = ground (
  arith,
  ==ℤ_comm e.primary_key f.primary_key,
  ==ℤ_comm e.remote_key f.remote_key,
  ==ℤ_comm e.primary_key f.remote_key,
  ==ℤ_comm e.remote_key f.primary_key,
)

-- The lists are symmetric: `f` is kept out by `e` exactly if `e` is kept out by `f`, so the order in
-- which two edges are inserted does not decide whether they may both be in the table.
pub conflicts_comm : (e f : Edge) → conflicts e f ≡ conflicts f e
conflicts_comm e f =
    conflicts-eq-exclusive e f ∙ exclusive_comm e f ∙ sym (conflicts-eq-exclusive f e)

-- A key of three fields in the format of the interface never makes the function fault, if its type
-- is the number of an edge type.
pub get_incompatible_keys-key_of :
    (e : Edge)
    → get_incompatible_keys (key_of e) ≡ keys_by_type e.primary_key e.remote_key (some e.type)
unfolding get_incompatible_keys edge_key_values
get_incompatible_keys-key_of e = rw (cast_edge_type-type_value e.type)
