-- ===== src/Workload.antt =====
-- src/workload.cc: the requests that `TraceGeneratorWorkload` makes up. The random engines and the clock
-- are a source of numbers with a state, which is not part of the program; the counter of the keys stands
-- beside it.
pub mod Loaded
pub mod Retries
pub mod Backoff
pub mod Requests
pub mod Transactions
use taobench.Prelude.{
  ℕ, zero, suc, ◌+◌, ◌%◌, ℤ, pos, negsuc, ◌==ℤ◌, Bytes, codes, contains, eq_bytes, List, [], ◌∷◌,
  ◌++◌, get_elem?, length, Option, some, none, Bool, true, false, ◌||◌, if◌then◌else◌,
}
use taobench.Db.{
  edges, objects, TimestampValue, DbOperation, Operation, Outcome, returns, faults, Fault, ◌>>=◌,
  Edge, EdgeType, edge_string_to_type, object_key,
}
use taobench.Db.Incompatible.{key_of}
use taobench.Keys.{generate_key, next_count}
use taobench.Loader.{ShardMap}

-- An index by the weights of a line of the configuration, a number below another, a byte, and the time.
pub record Source : Type 1 where
  pub State : Type 0
  pub draw : Bytes → State → ℕ × State
  pub below : ℕ → State → ℕ × State
  pub byte : State → ℕ × State
  pub now : State → ℕ × State

-- The lines of the configuration and the edges that were loaded, by their shards.
pub record Workload : Type 0 where
  pub types : Bytes → List Bytes
  pub vals : Bytes → List ℤ
  pub shard_to_edges : ShardMap

-- `[i]` of a vector.
unfoldable pub element {ℓ} : {A : Type ℓ} → List A → ℕ → Outcome A
element [] i = faults Fault.out_of_bounds
element (x ∷ xs) zero = returns x
element (x ∷ xs) (suc i) = element xs i

unfoldable pub find_shard : ℤ → ShardMap → Option (List Edge)
find_shard shard [] = none
find_shard shard ((s, es) ∷ m) = if s ==ℤ shard then some es else find_shard shard m

-- `CombineKeyMaps`, where the maps of the loaders are empty afterwards, and `GetNumLoadedEdges`.
unfoldable pub add_entry : ℤ → List Edge → ShardMap → ShardMap
add_entry shard es [] = (shard, es) ∷ []
add_entry shard es ((s, fs) ∷ m) =
    if s ==ℤ shard then (s, fs ++ es) ∷ m else (s, fs) ∷ add_entry shard es m

unfoldable pub add_map : ShardMap → ShardMap → ShardMap
unfolding add_entry
add_map [] m = m
add_map ((s, es) ∷ entries) m = add_map entries (add_entry s es m)

unfoldable pub combine_from : List ShardMap → ShardMap → ShardMap
unfolding add_map
combine_from [] m = m
combine_from (l ∷ ls) m = combine_from ls (add_map l m)

unfoldable pub combine_key_maps : List ShardMap → ShardMap
unfolding combine_from
combine_key_maps ls = combine_from ls []

unfoldable pub get_num_loaded_edges : ShardMap → ℕ
get_num_loaded_edges [] = 0
get_num_loaded_edges ((s, es) ∷ m) = length es + get_num_loaded_edges m

-- The lines that a type of operation is drawn from.
abbrev pub read_line : Bool → Bytes
read_line true = codes "read_txn_operation_types"
read_line false = codes "read_operation_types"

abbrev pub write_line : Bool → Bytes
write_line true = codes "write_txn_operation_types"
write_line false = codes "write_operation_types"

-- The kind of a write by its name.
unfoldable pub write_kind : Bytes → Outcome Operation
write_kind t =
    if contains t (codes "add")
    then returns Operation.insert
    else if eq_bytes t (codes "obj_update") || eq_bytes t (codes "edge_update")
    then returns Operation.update
    else if eq_bytes t (codes "obj_delete") || eq_bytes t (codes "edge_delete")
    then returns Operation.delete
    else faults Fault.invalid_argument

-- The operation on an edge or on its first object.
unfoldable pub operation_for : Bool → Edge → TimestampValue → Operation → DbOperation
operation_for true e tv o = record {
  table = edges;
  key = key_of e;
  time_and_value = tv;
  operation = o;
}
operation_for false e tv o = record {
  table = objects;
  key = object_key e.primary_key;
  time_and_value = tv;
  operation = o;
}

abbrev pub is_edge_op : Bytes → Bool
is_edge_op t = contains t (codes "edge")

abbrev pub no_value : TimestampValue
no_value = record { timestamp = pos 0; value = [] }

module _ (source : Source) (w : Workload) where
  open source use {State, draw, below, byte, now}

  -- The state of the source and the counter of the keys.
  abbrev pub Run : Type 0
  Run = State × ℕ

  -- A line's entry at an index that is drawn by its weights.
  unfoldable pub get_random_type : Bytes → Run → Outcome (Bytes × Run)
  unfolding element
  get_random_type line (s, n) =
      let (i, s') = draw line s in (do t ← element (w.types line) i; returns (t, (s', n)))

  unfoldable pub get_random_size : Bytes → Run → Outcome (ℤ × Run)
  unfolding element
  get_random_size line (s, n) =
      let (i, s') = draw line s in (do v ← element (w.vals line) i; returns (v, (s', n)))

  unfoldable pub choose_edge : List Edge → Run → Outcome (Option (Edge × Run))
  unfolding element
  choose_edge [] (s, n) = faults Fault.out_of_bounds
  choose_edge (e ∷ es) (s, n) =
      let (i, s') = below (length (e ∷ es)) s in
      (do chosen ← element (e ∷ es) i; returns (some (chosen, (s', n))))

  -- The loop draws a shard until it has one with edges; `none` means that the fuel ran out.
  unfoldable pub get_random_edge : ℕ → Run → Outcome (Option (Edge × Run))
  unfolding choose_edge find_shard
  get_random_edge zero (s, n) = returns none
  get_random_edge (suc fuel) (s, n) =
      let (shard, s') = draw (codes "primary_shards") s in
      let rest = get_random_edge fuel (s', n) in
      elim (find_shard (pos shard) w.shard_to_edges) [
        | none ↦ rest
        | some es ↦ choose_edge es (s', n)
      ]

  unfoldable pub new_key : ℕ → Run → ℤ × Run
  new_key shard (s, n) =
      let (timestamp, s') = now s in (generate_key shard n timestamp, (s', next_count n))

  unfoldable pub get_random_edge_type : Run → Outcome (EdgeType × Run)
  unfolding get_random_type
  get_random_edge_type r = do
    (t, r') ← get_random_type (codes "edge_types") r
    returns (edge_string_to_type t, r')

  -- An edge with new keys.
  unfoldable pub new_edge : Run → Outcome (Edge × Run)
  unfolding new_key get_random_edge_type
  new_edge (s, n) =
      let (primary_shard, s₁) = draw (codes "primary_shards") s in
      let (primary_key, r₁) = new_key primary_shard (s₁, n) in
      let (remote_shard, s₂) = draw (codes "remote_shards") r₁.0 in
      let (remote_key, r₂) = new_key remote_shard (s₂, r₁.1) in
      (do
        (type, r₃) ← get_random_edge_type r₂
        returns (record { primary_key = primary_key; remote_key = remote_key; type = type }, r₃))

  -- `GetValue`, with as many letters as are asked for.
  unfoldable pub letters : ℕ → State → Bytes × State
  letters zero s = ([], s)
  letters (suc k) s =
      let (c, s') = byte s in let (cs, s'') = letters k s' in ((b'a' + c % 26) ∷ cs, s'')

  unfoldable pub get_read_operation : ℕ → Bool → Run → Outcome (Option (DbOperation × Run))
  unfolding get_random_type get_random_edge operation_for
  get_read_operation fuel is_txn r = do
    (t, r₁) ← get_random_type (read_line is_txn) r
    chosen ← get_random_edge fuel r₁
    elim chosen [
      | none ↦ returns none
      | some (e, r₂) ↦ returns (some (operation_for (is_edge_op t) e no_value Operation.read, r₂))
    ]

  unfoldable pub edge_for : ℕ → Operation → Run → Outcome (Option (Edge × Run))
  unfolding get_random_edge new_edge
  edge_for fuel Operation.insert r = do (e, r') ← new_edge r; returns (some (e, r'))
  edge_for fuel _ r = get_random_edge fuel r

  -- The operation with the time and a new value.
  unfoldable pub written_operation : Bytes → Operation → Edge → Run → DbOperation × Run
  unfolding letters operation_for
  written_operation t o e (s, n) =
      let (timestamp, s₁) = now s in
      let (value, s₂) = letters 150 s₁ in
      (
        operation_for (is_edge_op t) e (record { timestamp = pos timestamp; value = value }) o,
        (s₂, n),
      )

  unfoldable pub get_write_operation : ℕ → Bool → Run → Outcome (Option (DbOperation × Run))
  unfolding get_random_type edge_for write_kind written_operation
  get_write_operation fuel is_txn r = do
    (t, r₁) ← get_random_type (write_line is_txn) r
    o ← write_kind t
    chosen ← edge_for fuel o r₁
    elim chosen [ none ↦ returns none | some (e, r₂) ↦ returns (some (written_operation t o e r₂)) ]

  -- The loop of a transaction over its operations.
  unfoldable pub repeat :
      (Run → Outcome (Option (DbOperation × Run)))
      → ℕ
      → Run
      → Outcome (Option (List DbOperation × Run))
  repeat operation zero r = returns (some ([], r))
  repeat operation (suc k) r = do
    first ← operation r
    elim first [
      | none ↦ returns none
      | some (op, r₁) ↦ (do
        rest ← repeat operation k r₁
        elim rest [ none ↦ returns none | some (ops, r₂) ↦ returns (some (op ∷ ops, r₂)) ])
    ]

  abbrev pub times : ℤ → ℕ
  times (pos k) = k
  times (negsuc k) = 0

  unfoldable pub get_read_transaction : ℕ → Run → Outcome (Option (List DbOperation × Run))
  unfolding get_random_size get_read_operation repeat
  get_read_transaction fuel r = do
    (size, r₁) ← get_random_size (codes "read_txn_sizes") r
    repeat (get_read_operation fuel true) (times size) r₁

  unfoldable pub get_write_transaction : ℕ → Run → Outcome (Option (List DbOperation × Run))
  unfolding get_random_size get_write_operation repeat
  get_write_transaction fuel r = do
    (size, r₁) ← get_random_size (codes "write_txn_sizes") r
    repeat (get_write_operation fuel true) (times size) r₁
