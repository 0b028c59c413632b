-- ===== src/CommandLine.antt =====
-- `ParseCommandLine`, `StrStartWith` and `main` of src/benchmark.cc. The files that `-p` names are a
-- function from their paths to their contents, `none` for a file that does not open; the phases
-- that `main` starts are in their own modules.
pub mod Phases
pub mod Ends
use taobench.Prelude.{
  Bytes, codes, eq_bytes, starts_with, List, [], ◌∷◌, Bool, true, false, if◌then◌else◌, ◌&&◌, ◌||◌,
  not, Option, none, some,
}
use taobench.Db.{Outcome, returns, faults, Fault}
use taobench.Text.{cut_at}
use taobench.Settings.{Properties, get_property, set_property, trim}
use taobench.Settings.Loading.{load}

-- The options that take a value, and those that do not.
pub data Flag : Type 0 where
  load_threads db property_file config property num_edges experiment : Flag

pub data Switch : Type 0 where
  status spin run transactions load_phase test : Switch

pub data Kind : Type 0 where
  takes_value : Flag → Kind
  alone : Switch → Kind
  unknown : Kind

-- What the arguments are compared with, in the order of the comparisons.
unfoldable pub kind_of : Bytes → Kind
kind_of arg =
    if eq_bytes arg (codes "-load-threads")
    then takes_value load_threads
    else if eq_bytes arg (codes "-db")
    then takes_value db
    else if eq_bytes arg (codes "-p")
    then takes_value property_file
    else if eq_bytes arg (codes "-c")
    then takes_value config
    else if eq_bytes arg (codes "-property")
    then takes_value property
    else if eq_bytes arg (codes "-s")
    then alone status
    else if eq_bytes arg (codes "-n")
    then takes_value num_edges
    else if eq_bytes arg (codes "-e")
    then takes_value experiment
    else if eq_bytes arg (codes "-spin")
    then alone spin
    else if eq_bytes arg (codes "-run")
    then alone run
    else if eq_bytes arg (codes "-t")
    then alone transactions
    else if eq_bytes arg (codes "-load")
    then alone load_phase
    else if eq_bytes arg (codes "-test")
    then alone test
    else unknown

-- The message of an `exit(0)`: the usage alone, or with a line on the error.
pub data Message : Type 0 where
  usage not_key_value : Message
  missing_value : Flag → Message
  unknown_option : Bytes → Message

-- `ParseCommandLine` gives the properties, calls `exit(0)`, or throws.
pub data Parsed : Type 0 where
  parsed : Properties → Parsed
  exits : Message → Parsed
  throws : Fault → Parsed

-- An option without a value.
unfoldable pub switch_on : Switch → Properties → Properties
unfolding set_property
switch_on status = set_property (codes "status") (codes "true")
switch_on spin = set_property (codes "spin") (codes "true")
switch_on run = set_property (codes "run") (codes "true")
switch_on transactions = set_property (codes "run") (codes "true")
switch_on load_phase = set_property (codes "run") (codes "false")
switch_on test = set_property (codes "test") (codes "true")

module _ (files : Bytes → Option Bytes) where
  -- An option with its value. `Load` throws an `Exception`, and the handler around it is for
  -- `std::string`.
  unfoldable pub set_flag : Flag → Bytes → Properties → Parsed
  unfolding set_property load cut_at trim
  set_flag load_threads v ps = parsed (set_property (codes "threadcount") v ps)
  set_flag db v ps = parsed (set_property (codes "dbname") v ps)
  set_flag property_file v ps = elim (load (files v) ps) [
    | returns ps' ↦ parsed ps'
    | faults e ↦ throws e
  ]
  set_flag config v ps = parsed (set_property (codes "config_path") v ps)
  set_flag property v ps = elim (cut_at b'=' v) [
    | none ↦ exits not_key_value
    | some (k, w) ↦ parsed (set_property (trim k) (trim w) ps)
  ]
  set_flag num_edges v ps = parsed (set_property (codes "num_edges") v ps)
  set_flag experiment v ps = parsed (set_property (codes "experiment_path") v ps)

  -- The loop from an argument on; a flag waits for its value.
  unfoldable pub parse_from : Option Flag → List Bytes → Properties → Parsed
  unfolding set_flag switch_on kind_of
  parse_from none [] ps = parsed ps
  parse_from (some flag) [] ps = exits (missing_value flag)
  parse_from (some flag) (v ∷ args) ps = elim (set_flag flag v ps) [
    | parsed ps' ↦ parse_from none args ps'
    | exits m ↦ exits m
    | throws e ↦ throws e
  ]
  parse_from none (arg ∷ args) ps = elim (starts_with arg (codes "-")) [
    | false ↦ exits usage
    | true ↦ (elim (kind_of arg) [
      | takes_value flag ↦ parse_from (some flag) args ps
      | alone switch ↦ parse_from none args (switch_on switch ps)
      | unknown ↦ exits (unknown_option arg)
    ])
  ]

  -- `ParseCommandLine` of the arguments after the name of the program.
  unfoldable pub parse_command_line : List Bytes → Properties → Parsed
  unfolding parse_from
  parse_command_line [] ps = exits usage
  parse_command_line (arg ∷ args) ps = parse_from none (arg ∷ args) ps

-- What `main` starts.
pub data Phase : Type 0 where
  run_transactions run_test_workload run_batch_insert : Properties → Phase

-- `main` after the command line.
unfoldable pub choose_phase : Properties → Outcome Phase
unfolding get_property
choose_phase ps =
    let is_test = eq_bytes (get_property (codes "test") (codes "false") ps) (codes "true") in
    let run_phase = get_property (codes "run") (codes "missing") ps in
    if eq_bytes run_phase (codes "missing") && not is_test
    then faults Fault.invalid_argument
    else if eq_bytes run_phase (codes "true")
    then returns (run_transactions ps)
    else if is_test
    then returns (run_test_workload ps)
    else returns (run_batch_insert ps)

-- How `main` goes on: a phase, an exit, or an exception that ends the program.
pub data Started : Type 0 where
  phase : Phase → Started
  exited : Message → Started
  terminated : Fault → Started

unfoldable pub main : (Bytes → Option Bytes) → List Bytes → Started
unfolding parse_command_line choose_phase
main files args = elim (parse_command_line files args []) [
  | exits m ↦ exited m
  | throws e ↦ terminated e
  | parsed ps ↦ (elim (choose_phase ps) [ returns p ↦ phase p | faults e ↦ terminated e ])
]
