-- ===== src/Config.antt =====
-- src/parse_config.cc: the lines of a configuration file. The regular expression and `std::stod` are
-- parameters: `search` gives the three groups of a line that matches, the empty text for a group
-- that took no part.
pub mod Lists
use taobench.Prelude.{
  ℤ, Bytes, codes, eq_bytes, List, [], ◌∷◌, ◌++◌, Bool, true, false, if◌then◌else◌, ◌==◌, ◌||◌, any,
  is_empty, Option, none, some,
}
use taobench.Db.{Outcome, returns, faults, Fault, ◌>>=◌, ◌>>◌}
use taobench.Decimal.{stoi, skip_space}
use taobench.Text.{pieces, get_lines}
use taobench.Settings.Loading.{newline}

abbrev pub have_vals : List Bytes
have_vals = codes "write_txn_sizes" ∷ codes "read_txn_sizes" ∷ []

abbrev pub have_types : List Bytes
have_types =
    codes "edge_types"
    ∷ codes "read_operation_types"
    ∷ codes "write_operation_types"
    ∷ codes "read_txn_operation_types"
    ∷ codes "errors"
    ∷ codes "txn_errors"
    ∷ codes "operation_predicates"
    ∷ codes "txn_predicates"
    ∷ codes "txn_predicate_counts"
    ∷ codes "read_tiers"
    ∷ codes "write_txn_operation_types"
    ∷ []

abbrev pub have_neither : List Bytes
have_neither =
    codes "read_operation_latency"
    ∷ codes "write_operation_latency"
    ∷ codes "operations"
    ∷ codes "write_txn_latency"
    ∷ codes "primary_shards"
    ∷ codes "remote_shards"
    ∷ []

-- `std::remove` of the quotation marks.
unfoldable pub unquote : Bytes → Bytes
unquote [] = []
unquote (c ∷ s) = let rest = unquote s in if c == b'"' then rest else c ∷ rest

-- `std::getline(iss >> std::ws, token, ',')`: white space is skipped before every token, and nothing
-- that follows it ends the loop.
unfoldable pub list_tokens : List Bytes → List Bytes
unfolding skip_space
list_tokens [] = []
list_tokens (piece ∷ []) = if is_empty (skip_space piece) then [] else skip_space piece ∷ []
list_tokens (piece ∷ next ∷ rest) = skip_space piece ∷ list_tokens (next ∷ rest)

module _ {T : Type 0} (f : Bytes → Outcome T) where
  unfoldable pub parse_tokens : List Bytes → Outcome (List T)
  unfolding unquote
  parse_tokens [] = returns []
  parse_tokens (token ∷ tokens) = do
    t ← f (unquote token)
    ts ← parse_tokens tokens
    returns (t ∷ ts)

  -- `parseList`.
  unfoldable pub parse_list : Bytes → Outcome (List T)
  unfolding parse_tokens list_tokens pieces
  parse_list text = parse_tokens (list_tokens (pieces b',' text))

module _ {D : Type 0} (search : Bytes → Option (Bytes × Bytes × Bytes))
    (stod : Bytes → Outcome D) where
  -- A `LineObject`, without the distribution that the standard library makes of its weights.
  pub record LineObject : Type 0 where
    pub name : Bytes
    pub types : List Bytes
    pub vals : List ℤ
    pub weights : List D

  abbrev pub is_among : List Bytes → Bytes → Bool
  is_among names name = any (eq_bytes name) names

  -- The second list of the line, by the name.
  unfoldable pub parse_entries : Bytes → Bytes → Outcome (List ℤ × List Bytes)
  unfolding parse_list
  parse_entries name text =
      if is_among have_vals name
      then (do vs ← parse_list stoi text; returns (vs, []))
      else if is_among have_types name
      then (do ts ← parse_list returns text; returns ([], ts))
      else if is_among have_neither name
      then returns ([], [])
      else faults Fault.invalid_argument

  unfoldable pub line_object : Bytes → Outcome LineObject
  unfolding parse_entries parse_list
  line_object line = elim (search line) [
    | none ↦ faults Fault.assertion
    | some (name, entries, weights) ↦ (do
      (vs, ts) ← parse_entries name entries
      ws ← parse_list stod weights
      returns (record { name = name; types = ts; vals = vs; weights = ws }))
  ]

  -- `fields.emplace`, which keeps the object that is there.
  unfoldable pub emplace_field : LineObject → List (Bytes × LineObject) → List (Bytes × LineObject)
  emplace_field obj fields =
      if any (λ f. eq_bytes f.0 obj.name) fields then fields else fields ++ (obj.name, obj) ∷ []

  unfoldable pub parse_fields :
      List Bytes → List (Bytes × LineObject) → Outcome (List (Bytes × LineObject))
  unfolding line_object emplace_field
  parse_fields [] fields = returns fields
  parse_fields (line ∷ lines) fields = do
    obj ← line_object line
    parse_fields lines (emplace_field obj fields)

  -- The constructor `ConfigParser`, of the content of the file.
  unfoldable pub config_parser : Option Bytes → Outcome (List (Bytes × LineObject))
  unfolding parse_fields get_lines
  config_parser none = returns []
  config_parser (some content) = parse_fields (get_lines newline content) []
