-- ===== src/Experiments/Reading.antt =====
-- What a file of experiments gives, and what a line with too few fields does to it.
use taobench.Prelude.{
  ℕ, ◌^◌, ◌≤◌, ◌<◌, ℤ, pos_part, neg_part, Bytes, List, [], ◌∷◌, ◌++◌, ◌≡◌, ◌≢◌, refl, ap, ◌∙◌,
  false, some, All, All-append, arith, append-nil,
}
use taobench.Db.{Outcome, returns, faults, ◌>>=◌}
use taobench.Decimal.{to_string, to_string-All, to_string-ne-nil, stoi-to_string}
use taobench.Text.{get_lines, Lacks, get_lines-line, get_lines-last}
use taobench.Settings.Loading.{is_comment, newline}
use taobench.Experiments.{ExperimentInfo, parse_experiment, parse_lines, load_experiments}

module _ {D : Type 0} (stod : Bytes → Outcome D) where
  -- A comment, or an experiment with the texts of its two lengths and the numbers they stand for.
  pub data ExpLine : Type 0 where
    comment : Bytes → ExpLine
    entry : ℤ → Bytes × D → Bytes × D → ExpLine

  abbrev pub text_of : ExpLine → Bytes
  text_of (comment s) = b'#' ∷ s
  text_of (entry n w e) = to_string n ++ b',' ∷ (w.0 ++ b',' ∷ e.0)

  abbrev pub IsLength : Bytes × D → Type 0
  IsLength w = Lacks newline w.0 × Lacks b',' w.0 × (w.0 ≢ []) × (stod w.0 ≡ returns w.1)

  abbrev pub IsLine : ExpLine → Type 0
  IsLine (comment s) = Lacks newline s
  IsLine (entry n w e) = (pos_part n < 2 ^ 31) × (neg_part n ≤ 2 ^ 31) × IsLength w × IsLength e

  abbrev pub file_of : List ExpLine → Bytes → Bytes
  file_of [] rest = rest
  file_of (l ∷ ls) rest = text_of l ++ newline ∷ file_of ls rest

  abbrev pub experiments_of : List ExpLine → List (ExperimentInfo stod)
  experiments_of [] = []
  experiments_of (comment s ∷ ls) = experiments_of ls
  experiments_of (entry n w e ∷ ls) =
      record { num_threads = n; warmup_len = w.1; exp_len = e.1 } ∷ experiments_of ls

  pub to_string-Lacks : (d : ℕ) (v : ℤ) → d < b'-' → Lacks d (to_string v)
  to_string-Lacks d v h = lacks (to_string v) (to_string-All v)
    where
      lacks : (s : Bytes) → All (λ c. b'-' ≤ c) s → Lacks d s
      lacks [] hs = tt
      lacks (c ∷ s) (g, hs) = (ground arith, lacks s hs)

  pub entry-comment : (s t : Bytes) → s ≢ [] → All (λ c. b'-' ≤ c) s → is_comment (s ++ t) ≡ false
  entry-comment [] t ne h = absurd (ne refl)
  entry-comment (c ∷ s) t ne (h, hs) = ground arith

  tokens :
      (a b c : Bytes)
      → Lacks b',' a
      → Lacks b',' b
      → Lacks b',' c
      → c ≢ []
      → get_lines b',' (a ++ b',' ∷ (b ++ b',' ∷ c)) ≡ a ∷ b ∷ c ∷ []
  tokens a b [] ha hb hc ne = absurd (ne refl)
  tokens a b (c ∷ s) ha hb hc ne =
      get_lines-line b',' a (b ++ b',' ∷ c ∷ s) ha
      ∙ ap (◌∷◌ a) (get_lines-line b',' b (c ∷ s) hb)
      ∙ ap (λ x. a ∷ b ∷ x) (get_lines-last b',' c s hc)

  text-Lacks : (l : ExpLine) → IsLine l → Lacks newline (text_of l)
  text-Lacks (comment s) h = (refl, h)
  text-Lacks (entry n w e) h =
      All-append _ (to_string n) _ (to_string-Lacks newline n (omega arith))
        (refl, All-append _ w.0 _ h.2.0 (refl, h.3.0))

  parse_entry :
      (n : ℤ) (w e : Bytes × D)
      → IsLine (entry n w e)
      → parse_experiment stod (text_of (entry n w e))
        ≡ returns (record { num_threads = n; warmup_len = w.1; exp_len = e.1 })
  unfolding parse_experiment
  parse_entry n w e h =
      rw
        (
          tokens (to_string n) w.0 e.0 (to_string-Lacks b',' n (omega arith)) h.2.1 h.3.1 h.3.2,
          stoi-to_string n h.0 h.1,
          h.2.3,
          h.3.3,
        )
        refl

  abbrev pub append_all :
      List (ExperimentInfo stod)
      → Outcome (List (ExperimentInfo stod))
      → Outcome (List (ExperimentInfo stod))
  append_all es (returns es') = returns (es ++ es')
  append_all es (faults f) = faults f

  pub append_all-nil : (r : Outcome (List (ExperimentInfo stod))) → r ≡ append_all [] r
  append_all-nil (returns es) = refl
  append_all-nil (faults f) = refl

  append_all-cons :
      (e : ExperimentInfo stod) (es : List (ExperimentInfo stod))
      (r : Outcome (List (ExperimentInfo stod)))
      → (append_all es r >>= λ es'. returns (e ∷ es')) ≡ append_all (e ∷ es) r
  append_all-cons e es (returns es') = refl
  append_all-cons e es (faults f) = refl

  -- The first line, as `getline` gives it.
  first_line :
      (l : ExpLine) (rest : Bytes)
      → IsLine l
      → parse_lines stod (get_lines newline (text_of l ++ newline ∷ rest))
        ≡ parse_lines stod (text_of l ∷ get_lines newline rest)
  first_line l rest h =
      ap (parse_lines stod) (get_lines-line newline (text_of l) rest (text-Lacks l h))

  pub cons_line :
      (line : Bytes) (lines : List Bytes) (r : Outcome (ExperimentInfo stod))
      → is_comment line ≡ false
      → parse_experiment stod line ≡ r
      → parse_lines stod (line ∷ lines)
        ≡ (r >>= λ e. parse_lines stod lines >>= λ es. returns (e ∷ es))
  unfolding parse_lines
  cons_line line lines r c p = rw (parse_lines, c, p) refl

  comment_line :
      (s : Bytes) (lines : List Bytes)
      → parse_lines stod ((b'#' ∷ s) ∷ lines) ≡ parse_lines stod lines
  unfolding parse_lines
  comment_line s lines = refl

  pub parse_file :
      (ls : List ExpLine) (rest : Bytes)
      → All IsLine ls
      → parse_lines stod (get_lines newline (file_of ls rest))
        ≡ append_all (experiments_of ls) (parse_lines stod (get_lines newline rest))
  parse_file [] rest h = append_all-nil _
  parse_file (comment s ∷ ls) rest (h, hs) =
      first_line (comment s) (file_of ls rest) h
      ∙ comment_line s (get_lines newline (file_of ls rest))
      ∙ parse_file ls rest hs
  parse_file (entry n w e ∷ ls) rest (h, hs) =
      first_line (entry n w e) (file_of ls rest) h
      ∙ cons_line (text_of (entry n w e)) (get_lines newline (file_of ls rest)) _
          (entry-comment (to_string n) _ (to_string-ne-nil n) (to_string-All n))
          (parse_entry n w e h)
      ∙ ap
          (λ r.
            r >>= λ es. returns (record { num_threads = n; warmup_len = w.1; exp_len = e.1 } ∷ es))
          (parse_file ls rest hs)
      ∙ append_all-cons _ (experiments_of ls) _

  -- A file of comments and of lines with a number of threads in the range of an `int` and two
  -- lengths that `std::stod` reads gives exactly its experiments, in their order.
  pub load_experiments_file :
      (ls : List ExpLine)
      → All IsLine ls
      → load_experiments stod (some (file_of ls [])) ≡ returns (experiments_of ls)
  unfolding load_experiments parse_lines get_lines
  load_experiments_file ls h = parse_file ls [] h ∙ ap returns (append-nil (experiments_of ls))
