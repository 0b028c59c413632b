-- ===== src/Experiments.antt =====
-- src/experiment_loader.h: the experiments of a file. `std::stod` is a parameter, with a type of its own
-- for its results.
pub mod Reading
pub mod ShortLines
use taobench.Prelude.{ℤ, Bytes, List, [], ◌∷◌, true, false, Option, none, some}
use taobench.Db.{Outcome, returns, faults, Fault, ◌>>=◌}
use taobench.Decimal.{stoi}
use taobench.Text.{get_lines}
use taobench.Settings.Loading.{is_comment, newline}

module _ {D : Type 0} (stod : Bytes → Outcome D) where
  pub record ExperimentInfo : Type 0 where
    pub num_threads : ℤ
    pub warmup_len : D
    pub exp_len : D

  -- `std::getline(iss, token, ',')`, of the tokens that are left.
  abbrev pub next_token : List Bytes → Outcome (Bytes × List Bytes)
  next_token [] = faults Fault.invalid_argument
  next_token (token ∷ tokens) = returns (token, tokens)

  -- The loop over the three tokens of a line.
  unfoldable pub parse_experiment : Bytes → Outcome ExperimentInfo
  unfolding get_lines
  parse_experiment line = do
    (first, rest) ← next_token (get_lines b',' line)
    threads ← stoi first
    (second, rest') ← next_token rest
    warmup ← stod second
    (third, rest'') ← next_token rest'
    exp ← stod third
    returns (record { num_threads = threads; warmup_len = warmup; exp_len = exp })

  unfoldable pub parse_lines : List Bytes → Outcome (List ExperimentInfo)
  unfolding parse_experiment
  parse_lines [] = returns []
  parse_lines (line ∷ lines) = elim (is_comment line) [
    | true ↦ parse_lines lines
    | false ↦ (do e ← parse_experiment line; es ← parse_lines lines; returns (e ∷ es))
  ]

  -- `LoadExperiments`, of the content of the file; a file that does not open has no lines.
  unfoldable pub load_experiments : Option Bytes → Outcome (List ExperimentInfo)
  unfolding parse_lines get_lines
  load_experiments none = returns []
  load_experiments (some content) = parse_lines (get_lines newline content)
