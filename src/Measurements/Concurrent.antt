-- ===== src/Measurements/Concurrent.antt =====
-- src/measurements.cc: `Report` as the atomic steps of a call, where calls of several threads on one
-- operation come between one another. Calls on another operation touch none of these counters.
use taobench.Prelude.{ℕ, ◌+◌, ◌%◌, ◌^◌, ◌≤◌, ◌<◌, List, [], ◌∷◌, ◌++◌, ◌≡◌, ◌⊎◌, Bool, true, false}
use taobench.Measurements.{OpStats, cleared}

-- The entry of an operation, with the values that its least and its greatest latency had before. A
-- relaxed load may still give one of these. `vector_lock` is held or free.
pub record Cells : Type 0 where
  pub now : OpStats
  pub old_mins : List ℕ
  pub old_maxs : List ℕ
  pub vector_lock : Bool

abbrev pub OneOf : ℕ → List ℕ → Type 0
OneOf v [] = ⊥
OneOf v (x ∷ xs) = (v ≡ x) ⊎ OneOf v xs

-- Where a call is, with the value of `prev_min` or `prev_max` in the two loops.
pub data Pc : Type 0 where
  entered counted summed min_done max_done locked pushed finished : Pc
  min_loaded max_loaded : ℕ → Pc

pub record Call : Type 0 where
  pub latency : ℕ
  pub pc : Pc

abbrev pub with_min : ℕ → Cells → Cells
with_min l s = record {
  now = record (s.now) { latency_min = l };
  old_mins = s.now.latency_min ∷ s.old_mins;
  old_maxs = s.old_maxs;
  vector_lock = s.vector_lock;
}

abbrev pub with_max : ℕ → Cells → Cells
with_max l s = record {
  now = record (s.now) { latency_max = l };
  old_mins = s.old_mins;
  old_maxs = s.now.latency_max ∷ s.old_maxs;
  vector_lock = s.vector_lock;
}

abbrev pub with_count : Cells → Cells
with_count s = record s { now = record (s.now) { count = (s.now.count + 1) % 2 ^ 32 } }

abbrev pub with_sum : ℕ → Cells → Cells
with_sum l s = record s { now = record (s.now) { latency_sum = (s.now.latency_sum + l) % 2 ^ 64 } }

abbrev pub with_latency : ℕ → Cells → Cells
with_latency l s = record s { now = record (s.now) { latencies = s.now.latencies ++ l ∷ [] } }

abbrev pub with_lock : Bool → Cells → Cells
with_lock b s = record s { vector_lock = b }

-- One step of a call that reports the latency `l`. `compare_exchange_weak` fails where the value has
-- changed, and may fail where it has not; a failure loads the value again.
pub data Move (l : ℕ) (s : Cells) : Pc → Cells → Pc → Type 0 where
  add_count : Move l s entered (with_count s) counted
  add_sum : Move l s counted (with_sum l s) summed
  load_min : (v : ℕ) → OneOf v (s.now.latency_min ∷ s.old_mins) → Move l s summed s (min_loaded v)
  keep_min : (v : ℕ) → v ≤ l → Move l s (min_loaded v) s min_done
  swap_min :
      (v : ℕ) → l < v → v ≡ s.now.latency_min → Move l s (min_loaded v) (with_min l s) min_done
  reload_min :
      (v w : ℕ)
      → l < v
      → OneOf w (s.now.latency_min ∷ s.old_mins)
      → Move l s (min_loaded v) s (min_loaded w)
  load_max : (v : ℕ) → OneOf v (s.now.latency_max ∷ s.old_maxs) → Move l s min_done s (max_loaded v)
  keep_max : (v : ℕ) → l ≤ v → Move l s (max_loaded v) s max_done
  swap_max :
      (v : ℕ) → v < l → v ≡ s.now.latency_max → Move l s (max_loaded v) (with_max l s) max_done
  reload_max :
      (v w : ℕ)
      → v < l
      → OneOf w (s.now.latency_max ∷ s.old_maxs)
      → Move l s (max_loaded v) s (max_loaded w)
  lock : s.vector_lock ≡ false → Move l s max_done (with_lock true s) locked
  push : Move l s locked (with_latency l s) pushed
  unlock : Move l s pushed (with_lock false s) finished

-- One call of the list goes from `p` to `q`.
pub data Changed (l : ℕ) (p q : Pc) : List Call → List Call → Type 0 where
  here :
      {cs : List Call}
      → Changed l p q (record { latency = l; pc = p } ∷ cs) (record { latency = l; pc = q } ∷ cs)
  there : {c : Call} {cs ds : List Call} → Changed l p q cs ds → Changed l p q (c ∷ cs) (c ∷ ds)

pub data Step (s : Cells) (cs : List Call) (t : Cells) (ds : List Call) : Type 0 where
  step : {l : ℕ} {p q : Pc} → Move l s p t q → Changed l p q cs ds → Step s cs t ds

-- What the steps lead to, in any order of the calls.
pub data Reach (s : Cells) (cs : List Call) : Cells → List Call → Type 0 where
  stay : Reach s cs s cs
  then_step : {t u : Cells} {ds es : List Call} → Reach s cs t ds → Step t ds u es → Reach s cs u es

abbrev pub fresh_cells : Cells
fresh_cells = record { now = cleared; old_mins = []; old_maxs = []; vector_lock = false }

-- A call of `Report` for each latency, none of which has made a step.
abbrev pub calls : List ℕ → List Call
calls [] = []
calls (l ∷ ls) = record { latency = l; pc = entered } ∷ calls ls
