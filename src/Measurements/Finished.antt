-- ===== src/Measurements/Finished.antt =====
-- What the calls of `Report` leave when all have returned.
use mathlib.Core.List.{Perm}
use taobench.Prelude.{ℕ, ◌≤◌, List, [], ◌∷◌, ◌≡◌, refl, sym, ◌∙◌, Bool, true, length, arith}
use taobench.Measurements.{OpStats, uint64_max, cleared}
use taobench.Measurements.Concurrent.{Cells, Pc, finished, Call, Reach, calls, fresh_cells}
use taobench.Measurements.Past.{
  past, sum, least, greatest, length-Perm, sum-Perm, least-Perm, greatest-Perm, record_all,
  count-record_all, sum-record_all, least-record_all, greatest-record_all, latencies-record_all,
}
use taobench.Measurements.Invariant.{
  Inv, is_counted, is_summed, is_min_done, is_max_done, is_pushed, calls-Inv,
}
use taobench.Measurements.Steps.{Reach-Inv}

abbrev pub latencies_of : List Call → List ℕ
latencies_of [] = []
latencies_of (c ∷ cs) = c.latency ∷ latencies_of cs

-- The calls, all returned.
abbrev pub returned : List Call → List Call
returned [] = []
returned (c ∷ cs) = record { latency = c.latency; pc = finished } ∷ returned cs

past-returned :
    (f : Pc → Bool) → f finished ≡ true → (cs : List Call) → past f (returned cs) ≡ latencies_of cs
past-returned f e [] = refl
past-returned f e (c ∷ cs) = rw (e, past-returned f e cs) refl

latencies_of-calls : (ls : List ℕ) → latencies_of (calls ls) ≡ ls
latencies_of-calls [] = refl
latencies_of-calls (l ∷ ls) = rw (latencies_of-calls ls) refl

least_le : (ls : List ℕ) → least ls ≤ uint64_max
least_le [] = omega arith
least_le (l ∷ ls) = omega (arith, least_le ls)

eq_of_fields :
    (a b : OpStats)
    → a.count ≡ b.count
    → a.latency_sum ≡ b.latency_sum
    → a.latency_min ≡ b.latency_min
    → a.latency_max ≡ b.latency_max
    → a.latencies ≡ b.latencies
    → a ≡ b
eq_of_fields a b e₁ e₂ e₃ e₄ e₅ = λ i. record {
  count = e₁ i;
  latency_sum = e₂ i;
  latency_min = e₃ i;
  latency_max = e₄ i;
  latencies = e₅ i;
}

-- Whatever the order of the steps of the calls on an operation, relaxed loads of earlier values and
-- failures of `compare_exchange_weak` included: when all have returned, the entry is that of the
-- same latencies reported one after another, in the order in which they stand in its list.
pub reports_in_order :
    (ls : List ℕ) (t : Cells)
    → Reach fresh_cells (calls ls) t (returned (calls ls))
    → Perm t.now.latencies ls × (t.now ≡ record_all t.now.latencies cleared)
reports_in_order ls t r = (
  order,
  eq_of_fields t.now (record_all t.now.latencies cleared) count latency_sum latency_min latency_max
      (sym (latencies-record_all t.now.latencies cleared)),
)
  where
    inv : Inv t (returned (calls ls))
    inv = Reach-Inv (calls-Inv ls) r

    all : (f : Pc → Bool) → f finished ≡ true → past f (returned (calls ls)) ≡ ls
    all f e = past-returned f e (calls ls) ∙ latencies_of-calls ls

    order : Perm t.now.latencies ls
    order = rw (sym (all is_pushed refl)) inv.latencies

    count : t.now.count ≡ (record_all t.now.latencies cleared).count
    count =
        let e : length (past is_counted (returned (calls ls))) ≡ length t.now.latencies =
          rw (all is_counted refl) (sym (length-Perm order)) in
        omega (arith, inv.count, count-record_all t.now.latencies cleared (omega arith))

    latency_sum : t.now.latency_sum ≡ (record_all t.now.latencies cleared).latency_sum
    latency_sum =
        let e : sum (past is_summed (returned (calls ls))) ≡ sum t.now.latencies =
          rw (all is_summed refl) (sym (sum-Perm order)) in
        omega (arith, inv.latency_sum, sum-record_all t.now.latencies cleared (omega arith))

    latency_min : t.now.latency_min ≡ (record_all t.now.latencies cleared).latency_min
    latency_min =
        let e : least (past is_min_done (returned (calls ls))) ≡ least t.now.latencies =
          rw (all is_min_done refl) (sym (least-Perm order)) in
        omega (
          arith,
          inv.latency_min,
          least-record_all t.now.latencies cleared (omega arith),
          least_le t.now.latencies,
        )

    latency_max : t.now.latency_max ≡ (record_all t.now.latencies cleared).latency_max
    latency_max =
        let e : greatest (past is_max_done (returned (calls ls))) ≡ greatest t.now.latencies =
          rw (all is_max_done refl) (sym (greatest-Perm order)) in
        omega (arith, inv.latency_max, greatest-record_all t.now.latencies cleared)
