-- ===== src/CommandLine/Phases.antt =====
-- Which phase `main` starts, from the options alone.
use taobench.Prelude.{
  Bytes, codes, eq_bytes, List, [], ◌∷◌, ◌≡◌, refl, sym, ◌∙◌, Bool, true, false, ◌||◌, Option, none,
  some, All,
}
use taobench.Db.{Fault, returns, faults}
use taobench.Settings.{Properties, find, find-set_property, get_property, set_property}
use taobench.CommandLine.{
  load_threads, db, property_file, config, property, num_edges, experiment, status, spin, run,
  transactions, load_phase, test, parsed, switch_on, set_flag, run_transactions, run_test_workload,
  run_batch_insert, choose_phase, Started, phase, terminated, main,
}
use taobench.CommandLine.Ends.{Opt, with_value, plain, nothing, arguments, in_turn, parse_options}

-- The options that set neither `run` nor `test` by their value.
abbrev pub IsDirect : Opt → Type 0
IsDirect (with_value property_file v) = ⊥
IsDirect (with_value property v) = ⊥
IsDirect _ = Unit

-- The last of the options that select a phase: true for the transactions.
abbrev pub last_phase : List Opt → Option Bool → Option Bool
last_phase [] p = p
last_phase (plain run ∷ os) p = last_phase os (some true)
last_phase (plain transactions ∷ os) p = last_phase os (some true)
last_phase (plain load_phase ∷ os) p = last_phase os (some false)
last_phase (_ ∷ os) p = last_phase os p

abbrev pub tested : List Opt → Bool
tested [] = false
tested (plain test ∷ os) = true
tested (_ ∷ os) = tested os

abbrev pub chosen : Option Bool → Bool → Properties → Started
chosen (some true) t ps = phase (run_transactions ps)
chosen (some false) true ps = phase (run_test_workload ps)
chosen (some false) false ps = phase (run_batch_insert ps)
chosen none true ps = phase (run_test_workload ps)
chosen none false ps = terminated Fault.invalid_argument

abbrev run_text : Option Bool → Option Bytes
run_text none = none
run_text (some true) = some (codes "true")
run_text (some false) = some (codes "false")

abbrev test_text : Bool → Option Bytes
test_text false = none
test_text true = some (codes "true")

-- The properties hold the last phase and the test that the options so far have asked for.
record Holds (p : Option Bool) (t : Bool) (ps : Properties) : Type 0 where
  of_run : find (codes "run") ps ≡ run_text p
  of_test : find (codes "test") ps ≡ test_text t

Holds-other :
    {p : Option Bool} {t : Bool} {ps : Properties} (key v : Bytes)
    → eq_bytes key (codes "run") ≡ false
    → eq_bytes key (codes "test") ≡ false
    → Holds p t ps
    → Holds p t (set_property key v ps)
Holds-other {ps = ps} key v e e' h = record {
  of_run = find-set_property (codes "run") key v ps ∙ rw e h.of_run;
  of_test = find-set_property (codes "test") key v ps ∙ rw e' h.of_test;
}

Holds-run :
    {p : Option Bool} {t : Bool} {ps : Properties} (b : Bool) (v : Bytes)
    → some v ≡ run_text (some b)
    → Holds p t ps
    → Holds (some b) t (set_property (codes "run") v ps)
Holds-run {ps = ps} b v e h = record {
  of_run = find-set_property (codes "run") (codes "run") v ps ∙ e;
  of_test = find-set_property (codes "test") (codes "run") v ps ∙ h.of_test;
}

Holds-test :
    {p : Option Bool} {t : Bool} {ps : Properties}
    → Holds p t ps
    → Holds p true (set_property (codes "test") (codes "true") ps)
Holds-test {ps = ps} h = record {
  of_run = find-set_property (codes "run") (codes "test") (codes "true") ps ∙ h.of_run;
  of_test = find-set_property (codes "test") (codes "test") (codes "true") ps;
}

-- The property that an option sets, and its value.
abbrev key_of : Opt → Bytes
key_of (with_value load_threads v) = codes "threadcount"
key_of (with_value db v) = codes "dbname"
key_of (with_value property_file v) = []
key_of (with_value config v) = codes "config_path"
key_of (with_value property v) = []
key_of (with_value num_edges v) = codes "num_edges"
key_of (with_value experiment v) = codes "experiment_path"
key_of (plain status) = codes "status"
key_of (plain spin) = codes "spin"
key_of (plain run) = codes "run"
key_of (plain transactions) = codes "run"
key_of (plain load_phase) = codes "run"
key_of (plain test) = codes "test"

abbrev value_of : Opt → Bytes
value_of (with_value flag v) = v
value_of (plain load_phase) = codes "false"
value_of (plain _) = codes "true"

last_phase-cons :
    (o : Opt) (os : List Opt) (p : Option Bool)
    → last_phase (o ∷ os) p ≡ last_phase os (last_phase (o ∷ []) p)
last_phase-cons (plain run) os p = refl
last_phase-cons (plain transactions) os p = refl
last_phase-cons (plain load_phase) os p = refl
last_phase-cons _ os p = refl

tested-cons :
    (o : Opt) (os : List Opt) (t : Bool)
    → (tested (o ∷ os) || t) ≡ (tested os || (tested (o ∷ []) || t))
tested-cons (plain test) os t = sym (or_true (tested os))
  where
    or_true : (b : Bool) → (b || true) ≡ true
    or_true true = refl
    or_true false = refl
tested-cons _ os t = refl

Holds-next :
    (o : Opt) (p : Option Bool) (t : Bool) (ps : Properties)
    → IsDirect o
    → Holds p t ps
    → Holds (last_phase (o ∷ []) p) (tested (o ∷ []) || t) (set_property (key_of o) (value_of o) ps)
Holds-next (with_value property_file v) p t ps d h = elim d [ ]
Holds-next (with_value property v) p t ps d h = elim d [ ]
Holds-next (plain run) p t ps d h = Holds-run true (codes "true") refl h
Holds-next (plain transactions) p t ps d h = Holds-run true (codes "true") refl h
Holds-next (plain load_phase) p t ps d h = Holds-run false (codes "false") refl h
Holds-next (plain test) p t ps d h = Holds-test h
Holds-next o p t ps d h = Holds-other (key_of o) (value_of o) refl refl h

get_of :
    (key d : Bytes) (ps : Properties) (o : Option Bytes)
    → find key ps ≡ o
    → get_property key d ps ≡ (elim o [ none ↦ d | some v ↦ v ])
unfolding get_property
get_of key d ps o e = rw (get_property, e) refl

Holds-chosen :
    (p : Option Bool) (t : Bool) (ps : Properties)
    → Holds p t ps
    → Path Started
        (elim (choose_phase ps) [ returns q ↦ phase q | faults e ↦ terminated e ])
        (chosen p t ps)
unfolding choose_phase
Holds-chosen (some true) true ps h =
    rw
      (
        get_of (codes "test") (codes "false") ps (some (codes "true")) h.of_test,
        get_of (codes "run") (codes "missing") ps (some (codes "true")) h.of_run,
      )
      refl
Holds-chosen (some true) false ps h =
    rw
      (
        get_of (codes "test") (codes "false") ps none h.of_test,
        get_of (codes "run") (codes "missing") ps (some (codes "true")) h.of_run,
      )
      refl
Holds-chosen (some false) true ps h =
    rw
      (
        get_of (codes "test") (codes "false") ps (some (codes "true")) h.of_test,
        get_of (codes "run") (codes "missing") ps (some (codes "false")) h.of_run,
      )
      refl
Holds-chosen (some false) false ps h =
    rw
      (
        get_of (codes "test") (codes "false") ps none h.of_test,
        get_of (codes "run") (codes "missing") ps (some (codes "false")) h.of_run,
      )
      refl
Holds-chosen none true ps h =
    rw
      (
        get_of (codes "test") (codes "false") ps (some (codes "true")) h.of_test,
        get_of (codes "run") (codes "missing") ps none h.of_run,
      )
      refl
Holds-chosen none false ps h =
    rw
      (
        get_of (codes "test") (codes "false") ps none h.of_test,
        get_of (codes "run") (codes "missing") ps none h.of_run,
      )
      refl

module _ (files : Bytes → Option Bytes) where
  -- What the options leave, where none of them can end the program.
  record Leaves (os : List Opt) (p : Option Bool) (t : Bool) (ps : Properties) : Type 0 where
    after : Properties
    runs : in_turn files os nothing ps ≡ parsed after
    holds : Holds (last_phase os p) (tested os || t) after

  -- An option that goes on with the properties it sets.
  later :
      (os : List Opt) (p p' : Option Bool) (t t' : Bool) (ps ps' : Properties) (o : Opt)
      → in_turn files (o ∷ os) nothing ps ≡ in_turn files os nothing ps'
      → last_phase (o ∷ os) p ≡ last_phase os p'
      → (tested (o ∷ os) || t) ≡ (tested os || t')
      → Leaves os p' t' ps'
      → Leaves (o ∷ os) p t ps
  later os p p' t t' ps ps' o e e₁ e₂ l = record {
    after = l.after;
    runs = e ∙ l.runs;
    holds = rw (e₁, e₂) l.holds;
  }

  effect :
      (o : Opt) (os : List Opt) (ps : Properties)
      → IsDirect o
      → in_turn files (o ∷ os) nothing ps
        ≡ in_turn files os nothing (set_property (key_of o) (value_of o) ps)
  unfolding set_flag switch_on
  effect (with_value property_file v) os ps d = elim d [ ]
  effect (with_value property v) os ps d = elim d [ ]
  effect (with_value load_threads v) os ps d = refl
  effect (with_value db v) os ps d = refl
  effect (with_value config v) os ps d = refl
  effect (with_value num_edges v) os ps d = refl
  effect (with_value experiment v) os ps d = refl
  effect (plain status) os ps d = refl
  effect (plain spin) os ps d = refl
  effect (plain run) os ps d = refl
  effect (plain transactions) os ps d = refl
  effect (plain load_phase) os ps d = refl
  effect (plain test) os ps d = refl

  leaves :
      (os : List Opt) (p : Option Bool) (t : Bool) (ps : Properties)
      → All IsDirect os
      → Holds p t ps
      → Leaves os p t ps
  leaves [] p t ps d h = record { after = ps; runs = refl; holds = h }
  leaves (o ∷ os) p t ps (d, ds) h =
      later os p (last_phase (o ∷ []) p) t (tested (o ∷ []) || t) ps
        (set_property (key_of o) (value_of o) ps) o (effect o os ps d) (last_phase-cons o os p)
        (tested-cons o os t)
        (leaves os (last_phase (o ∷ []) p) (tested (o ∷ []) || t) _ ds (Holds-next o p t ps d h))

  -- With one or more options, none of which is `-p` or `-property`, `main` starts the transactions
  -- if the last of `-run`, `-t` and `-load` is one of the first two. Otherwise it starts the test
  -- workload if there is a `-test`, the batch insert if there is a `-load`, and with neither it ends
  -- with an `invalid_argument`.
  pub main_phase :
      (o : Opt) (os : List Opt)
      → All IsDirect (o ∷ os)
      → (ps : Properties) × (main files (arguments (o ∷ os) nothing)
          ≡ chosen (last_phase (o ∷ os) none) (tested (o ∷ os)) ps)
  unfolding main
  main_phase o os d =
      let l =
        leaves (o ∷ os) none false [] d
          (record { of_run = unfold find in refl; of_test = unfold find in refl }) in
      (
        l.after,
        rw (main, parse_options files o os nothing [] tt ∙ l.runs)
            (Holds-chosen _ _ l.after l.holds ∙ rw (or_false (tested (o ∷ os))) refl),
      )
    where
      or_false : (b : Bool) → (b || false) ≡ b
      or_false true = refl
      or_false false = refl
