-- ===== src/Measurements/Steps.antt =====
-- Every step of a call keeps the invariant of the counters.
use mathlib.Core.List.{perm_append_singleton}
use mathlib.Core.List.Perm
use taobench.Prelude.{ℕ, ◌≤◌, min, max, List, ◌∷◌, All, ◌≡◌, ◌∙◌, refl, arith, Bool, true, false}
use taobench.Measurements.Concurrent.{
  entered, counted, summed, min_loaded, min_done, max_loaded, max_done, locked, pushed, Cells, Pc,
  Call, with_count, with_sum, with_latency, Move, add_count, add_sum, load_min, keep_min, swap_min,
  reload_min, load_max, keep_max, swap_max, reload_max, lock, push, unlock, with_lock, Changed,
  Step, step, Reach, stay, then_step,
}
use taobench.Measurements.Past.{past-passed, length-Perm, sum-Perm}
use taobench.Measurements.Invariant.{
  Inv, is_counted, is_summed, is_pushed, All-imp, loaded_min, loaded_max, own, keeps_loads,
  count_kept, sum_kept, min_kept, max_kept, latencies_kept, min_passed, max_passed, looks,
}

abbrev set_min : ℕ → List ℕ → Cells → Cells
set_min m olds s = record {
  now = record (s.now) { latency_min = m };
  old_mins = olds;
  old_maxs = s.old_maxs;
  vector_lock = s.vector_lock;
}

abbrev set_max : ℕ → List ℕ → Cells → Cells
set_max m olds s = record {
  now = record (s.now) { latency_max = m };
  old_mins = s.old_mins;
  old_maxs = olds;
  vector_lock = s.vector_lock;
}

module _ {s : Cells} {cs : List Call} (inv : Inv s cs) {l : ℕ} {ds : List Call} where
  add_count-Inv : Changed l entered counted cs ds → Inv (with_count s) ds
  add_count-Inv ch = record {
    count =
        (let e = length-Perm (past-passed is_counted refl refl ch) in omega (arith, inv.count, e));
    latency_sum = sum_kept inv ch refl;
    latency_min = min_kept inv ch refl;
    latency_max = max_kept inv ch refl;
    latencies = latencies_kept inv ch refl;
    above = inv.above;
    below = inv.below;
    fresh = keeps_loads inv ch (with_count s) (omega arith) (omega arith) tt;
  }

  add_sum-Inv : Changed l counted summed cs ds → Inv (with_sum l s) ds
  add_sum-Inv ch = record {
    count = count_kept inv ch refl;
    latency_sum =
        (let e = sum-Perm (past-passed is_summed refl refl ch) in
          omega (arith, inv.latency_sum, e));
    latency_min = min_kept inv ch refl;
    latency_max = max_kept inv ch refl;
    latencies = latencies_kept inv ch refl;
    above = inv.above;
    below = inv.below;
    fresh = keeps_loads inv ch (with_sum l s) (omega arith) (omega arith) tt;
  }

  -- The end of the first loop, where the least latency is `m` afterwards.
  min_done-Inv :
      {v : ℕ} (m : ℕ) (olds : List ℕ)
      → m ≡ min l s.now.latency_min
      → All (λ w. m ≤ w) olds
      → Changed l (min_loaded v) min_done cs ds
      → Inv (set_min m olds s) ds
  min_done-Inv m olds e above ch = record {
    count = count_kept inv ch refl;
    latency_sum = sum_kept inv ch refl;
    latency_min = e ∙ min_passed inv ch refl refl;
    latency_max = max_kept inv ch refl;
    latencies = latencies_kept inv ch refl;
    above = above;
    below = inv.below;
    fresh = keeps_loads inv ch (set_min m olds s) (omega arith) (omega arith) tt;
  }

  -- The end of the second loop.
  max_done-Inv :
      {v : ℕ} (m : ℕ) (olds : List ℕ)
      → m ≡ max l s.now.latency_max
      → All (λ w. w ≤ m) olds
      → Changed l (max_loaded v) max_done cs ds
      → Inv (set_max m olds s) ds
  max_done-Inv m olds e below ch = record {
    count = count_kept inv ch refl;
    latency_sum = sum_kept inv ch refl;
    latency_min = min_kept inv ch refl;
    latency_max = e ∙ max_passed inv ch refl refl;
    latencies = latencies_kept inv ch refl;
    above = inv.above;
    below = below;
    fresh = keeps_loads inv ch (set_max m olds s) (omega arith) (omega arith) tt;
  }

  push-Inv : Changed l locked pushed cs ds → Inv (with_latency l s) ds
  push-Inv ch = record {
    count = count_kept inv ch refl;
    latency_sum = sum_kept inv ch refl;
    latency_min = min_kept inv ch refl;
    latency_max = max_kept inv ch refl;
    latencies =
        Perm.trans (perm_append_singleton l s.now.latencies)
          (Perm.trans (Perm.cons l inv.latencies) (Perm.symm (past-passed is_pushed refl refl ch)));
    above = inv.above;
    below = inv.below;
    fresh = keeps_loads inv ch (with_latency l s) (omega arith) (omega arith) tt;
  }

lock-Inv : {s : Cells} {cs : List Call} (b : Bool) → Inv s cs → Inv (with_lock b s) cs
lock-Inv b inv = record {
  count = inv.count;
  latency_sum = inv.latency_sum;
  latency_min = inv.latency_min;
  latency_max = inv.latency_max;
  latencies = inv.latencies;
  above = inv.above;
  below = inv.below;
  fresh = inv.fresh;
}

Move-Inv :
    {l : ℕ} {s t : Cells} {p q : Pc} {cs ds : List Call}
    → Move l s p t q
    → Changed l p q cs ds
    → Inv s cs
    → Inv t ds
Move-Inv add_count ch inv = add_count-Inv inv ch
Move-Inv add_sum ch inv = add_sum-Inv inv ch
Move-Inv (load_min v h) ch inv = looks inv ch refl refl refl refl refl (loaded_min inv h)
Move-Inv (reload_min v w h m) ch inv = looks inv ch refl refl refl refl refl (loaded_min inv m)
Move-Inv (load_max v h) ch inv = looks inv ch refl refl refl refl refl (loaded_max inv h)
Move-Inv (reload_max v w h m) ch inv = looks inv ch refl refl refl refl refl (loaded_max inv m)
Move-Inv {s = s} (keep_min v h) ch inv =
    min_done-Inv inv s.now.latency_min s.old_mins (omega (arith, own inv ch)) inv.above ch
Move-Inv {l} {s} (swap_min v h e) ch inv =
    min_done-Inv inv l (s.now.latency_min ∷ s.old_mins) (omega arith)
      (
        omega arith,
        All-imp (λ w. s.now.latency_min ≤ w) (λ w. l ≤ w) (λ w hw. omega arith) s.old_mins
            inv.above,
      )
      ch
Move-Inv {s = s} (keep_max v h) ch inv =
    max_done-Inv inv s.now.latency_max s.old_maxs (omega (arith, own inv ch)) inv.below ch
Move-Inv {l} {s} (swap_max v h e) ch inv =
    max_done-Inv inv l (s.now.latency_max ∷ s.old_maxs) (omega arith)
      (
        omega arith,
        All-imp (λ w. w ≤ s.now.latency_max) (λ w. w ≤ l) (λ w hw. omega arith) s.old_maxs
            inv.below,
      )
      ch
Move-Inv (lock free) ch inv = lock-Inv true (looks inv ch refl refl refl refl refl tt)
Move-Inv push ch inv = push-Inv inv ch
Move-Inv unlock ch inv = lock-Inv false (looks inv ch refl refl refl refl refl tt)

Step-Inv : {s t : Cells} {cs ds : List Call} → Step s cs t ds → Inv s cs → Inv t ds
Step-Inv (step m ch) inv = Move-Inv m ch inv

pub Reach-Inv :
    {s : Cells} {cs : List Call} {t : Cells} {ds : List Call}
    → Inv s cs
    → Reach s cs t ds
    → Inv t ds
Reach-Inv inv stay = inv
Reach-Inv inv (then_step r st) = Step-Inv st (Reach-Inv inv r)
