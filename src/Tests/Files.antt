-- ===== src/Tests/Files.antt =====
-- The theorems about the command line and the files at concrete inputs.
use taobench.Prelude.{
  Bytes, codes, List, [], ◌∷◌, Option, none, some, ◌≡◌, refl, arith, true, false,
}
use taobench.Db.{returns}
use taobench.Decimal.{is_space, skip_space}
use taobench.Text.{skip_space_end}
use taobench.Settings.{Properties, set_property}
use taobench.Settings.Loading
use taobench.Settings.Loading.{load, load_lines}
use taobench.CommandLine.{db, num_edges, run, load_phase, test, kind_of, parse_command_line, main}
use taobench.CommandLine.Ends.{with_value, plain, unknown_opt, in_turn, parse_options}
use taobench.CommandLine.Phases.{chosen, main_phase}
use taobench.Experiments.Reading

-- No file opens.
abbrev no_files : Bytes → Option Bytes
no_files path = none

main_phase_example :
    (ps : Properties) × (main no_files
        (codes "-db" ∷ codes "mysql" ∷ codes "-run" ∷ codes "-load" ∷ codes "-test" ∷ [])
      ≡ chosen (some false) true ps)
main_phase_example =
    main_phase no_files (with_value db (codes "mysql"))
      (plain run ∷ plain load_phase ∷ plain test ∷ []) (tt, (tt, (tt, (tt, tt))))

parse_options_example :
    parse_command_line no_files
      (codes "-n" ∷ codes "-run" ∷ codes "-load" ∷ codes "-bogus" ∷ codes "x" ∷ [])
      []
    ≡ in_turn no_files
        (with_value num_edges (codes "-run") ∷ plain load_phase ∷ [])
        (unknown_opt (codes "-bogus") (codes "x" ∷ []))
        []
unfolding kind_of
parse_options_example =
    parse_options no_files (with_value num_edges (codes "-run")) (plain load_phase ∷ [])
      (unknown_opt (codes "-bogus") (codes "x" ∷ [])) [] (refl, refl)

abbrev property_lines : List Loading.FileLine
property_lines =
    Loading.comment (codes " a comment")
    ∷ Loading.note []
    ∷ Loading.setting [] (codes "a") (codes " ") (codes " ") (codes "b c") []
    ∷ []

load_lines_example :
    load (some (Loading.file_of property_lines)) []
    ≡ returns (set_property (codes "a") (codes "b c") [])
unfolding is_space skip_space skip_space_end
load_lines_example = load_lines property_lines [] (ground arith)
