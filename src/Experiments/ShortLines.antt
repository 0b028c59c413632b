-- ===== src/Experiments/ShortLines.antt =====
-- What a line with too few fields does to a file of experiments.
use taobench.Prelude.{◌^◌, ◌≤◌, ◌<◌, ℤ, pos_part, neg_part, Bytes, [], ◌∷◌, ◌++◌}
use taobench.Db.{Outcome}
use taobench.Decimal.{to_string}
use taobench.Experiments.Reading.{IsLength}

module _ {D : Type 0} (stod : Bytes → Outcome D) where
  -- A line with nothing on it, with a number of threads alone, or with one length after it, and with
  -- a comma at its end.
  pub data ShortLine : Type 0 where
    blank : ShortLine
    threads_only : ℤ → ShortLine
    no_exp_len : ℤ → Bytes × D → ShortLine

  abbrev pub short_text : ShortLine → Bytes
  short_text blank = []
  short_text (threads_only n) = to_string n
  short_text (no_exp_len n w) = to_string n ++ b',' ∷ (w.0 ++ b',' ∷ [])

  abbrev pub IsShort : ShortLine → Type 0
  IsShort blank = Unit
  IsShort (threads_only n) = (pos_part n < 2 ^ 31) × (neg_part n ≤ 2 ^ 31)
  IsShort (no_exp_len n w) = (pos_part n < 2 ^ 31) × (neg_part n ≤ 2 ^ 31) × IsLength stod w
