-- ===== src/CommandLine/Ends.antt =====
-- What `ParseCommandLine` does with a list of options and whatever follows it.
use taobench.Prelude.{
  Bytes, codes, starts_with, List, [], ◌∷◌, ◌≡◌, refl, ◌∙◌, true, false, Option, none, some,
}
use taobench.Settings.{Properties}
use taobench.CommandLine.{
  Flag, load_threads, db, property_file, config, property, num_edges, experiment, Switch, status,
  spin, run, transactions, load_phase, test, unknown, kind_of, usage, missing_value, unknown_option,
  Parsed, parsed, exits, throws, switch_on, set_flag, parse_from, parse_command_line,
}

-- An option as the user means it.
pub data Opt : Type 0 where
  with_value : Flag → Bytes → Opt
  plain : Switch → Opt

abbrev pub flag_text : Flag → Bytes
flag_text load_threads = codes "-load-threads"
flag_text db = codes "-db"
flag_text property_file = codes "-p"
flag_text config = codes "-c"
flag_text property = codes "-property"
flag_text num_edges = codes "-n"
flag_text experiment = codes "-e"

abbrev pub switch_text : Switch → Bytes
switch_text status = codes "-s"
switch_text spin = codes "-spin"
switch_text run = codes "-run"
switch_text transactions = codes "-t"
switch_text load_phase = codes "-load"
switch_text test = codes "-test"

-- What follows the options: nothing, an argument that is no option, an unknown option, or an option
-- that lacks its value.
pub data Ending : Type 0 where
  nothing : Ending
  stray unknown_opt : Bytes → List Bytes → Ending
  lacks_value : Flag → Ending

abbrev pub ending_args : Ending → List Bytes
ending_args nothing = []
ending_args (stray arg rest) = arg ∷ rest
ending_args (unknown_opt arg rest) = arg ∷ rest
ending_args (lacks_value flag) = flag_text flag ∷ []

abbrev pub arguments : List Opt → Ending → List Bytes
arguments [] e = ending_args e
arguments (with_value flag v ∷ os) e = flag_text flag ∷ v ∷ arguments os e
arguments (plain switch ∷ os) e = switch_text switch ∷ arguments os e

abbrev pub IsEnding : Ending → Type 0
IsEnding nothing = Unit
IsEnding (stray arg rest) = starts_with arg (codes "-") ≡ false
IsEnding (unknown_opt arg rest) = (starts_with arg (codes "-") ≡ true) × (kind_of arg ≡ unknown)
IsEnding (lacks_value flag) = Unit

abbrev pub ended : Ending → Properties → Parsed
ended nothing ps = parsed ps
ended (stray arg rest) ps = exits usage
ended (unknown_opt arg rest) ps = exits (unknown_option arg)
ended (lacks_value flag) ps = exits (missing_value flag)

module _ (files : Bytes → Option Bytes) where
  -- The options one after another, up to the first that exits or throws, and then the ending.
  abbrev pub in_turn : List Opt → Ending → Properties → Parsed
  in_turn [] e ps = ended e ps
  in_turn (with_value flag v ∷ os) e ps = elim (set_flag files flag v ps) [
    | parsed ps' ↦ in_turn os e ps'
    | exits m ↦ exits m
    | throws f ↦ throws f
  ]
  in_turn (plain switch ∷ os) e ps = in_turn os e (switch_on switch ps)

  flag_step :
      (flag : Flag) (args : List Bytes) (ps : Properties)
      → parse_from files none (flag_text flag ∷ args) ps ≡ parse_from files (some flag) args ps
  unfolding parse_from kind_of
  flag_step load_threads args ps = refl
  flag_step db args ps = refl
  flag_step property_file args ps = refl
  flag_step config args ps = refl
  flag_step property args ps = refl
  flag_step num_edges args ps = refl
  flag_step experiment args ps = refl

  switch_step :
      (switch : Switch) (args : List Bytes) (ps : Properties)
      → parse_from files none (switch_text switch ∷ args) ps
        ≡ parse_from files none args (switch_on switch ps)
  unfolding parse_from kind_of
  switch_step status args ps = refl
  switch_step spin args ps = refl
  switch_step run args ps = refl
  switch_step transactions args ps = refl
  switch_step load_phase args ps = refl
  switch_step test args ps = refl

  ending_step :
      (e : Ending) (ps : Properties)
      → IsEnding e
      → parse_from files none (ending_args e) ps ≡ ended e ps
  unfolding parse_from
  ending_step nothing ps h = refl
  ending_step (stray arg rest) ps h = rw h refl
  ending_step (unknown_opt arg rest) ps h = rw (h.0, h.1) refl
  ending_step (lacks_value flag) ps h = flag_step flag [] ps

  value_step :
      (flag : Flag) (v : Bytes) (args : List Bytes) (ps : Properties) (rest : Properties → Parsed)
      → ((ps' : Properties) → parse_from files none args ps' ≡ rest ps')
      → parse_from files (some flag) (v ∷ args) ps ≡ elim (set_flag files flag v ps) [
        | parsed ps' ↦ rest ps'
        | exits m ↦ exits m
        | throws f ↦ throws f
      ]
  unfolding parse_from
  value_step flag v args ps rest ih = same (set_flag files flag v ps)
    where
      same :
          (r : Parsed)
          → Path Parsed
              (elim r [
                | parsed ps' ↦ parse_from files none args ps'
                | exits m ↦ exits m
                | throws f ↦ throws f
              ])
              (elim r [ parsed ps' ↦ rest ps' | exits m ↦ exits m | throws f ↦ throws f ])
      same (parsed ps') = ih ps'
      same (exits m) = refl
      same (throws f) = refl

  pub from_options :
      (os : List Opt) (e : Ending) (ps : Properties)
      → IsEnding e
      → parse_from files none (arguments os e) ps ≡ in_turn os e ps
  from_options [] e ps h = ending_step e ps h
  from_options (with_value flag v ∷ os) e ps h =
      flag_step flag (v ∷ arguments os e) ps
      ∙ value_step flag v (arguments os e) ps (in_turn os e) (λ ps'. from_options os e ps' h)
  from_options (plain switch ∷ os) e ps h =
      switch_step switch (arguments os e) ps ∙ from_options os e (switch_on switch ps) h

  -- A command line is one or more options, and then nothing, an argument that is no option, an
  -- unknown option, or an option that lacks its value: the options take effect one after another,
  -- up to one whose value ends the program; if none does, what follows them gives the properties
  -- or the message of the exit.
  pub parse_options :
      (o : Opt) (os : List Opt) (e : Ending) (ps : Properties)
      → IsEnding e
      → parse_command_line files (arguments (o ∷ os) e) ps ≡ in_turn (o ∷ os) e ps
  unfolding parse_command_line
  parse_options (with_value flag v) os e ps h = from_options (with_value flag v ∷ os) e ps h
  parse_options (plain switch) os e ps h = from_options (plain switch ∷ os) e ps h
