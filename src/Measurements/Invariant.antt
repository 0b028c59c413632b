-- ===== src/Measurements/Invariant.antt =====
-- What holds of the counters of an operation whatever order the steps of the calls come in.
use mathlib.Core.List.{Perm}
use mathlib.Core.List.Perm
use taobench.Prelude.{
  ℕ, ◌%◌, ◌^◌, ◌≤◌, min, max, List, [], ◌∷◌, ◌≡◌, inl, inr, refl, sym, ap, ◌∙◌, Bool, true, false,
  length, All, arith, subst,
}
use taobench.Measurements.Concurrent.{
  Cells, OneOf, Pc, entered, counted, min_loaded, min_done, max_loaded, max_done, locked, pushed,
  finished, Call, Changed, calls, fresh_cells,
}
use taobench.Measurements.Past.{
  past, past-same, past-passed, All-Changed, All-at, sum, least, greatest, least-Perm,
  greatest-Perm,
}

abbrev pub is_counted : Pc → Bool
is_counted entered = false
is_counted _ = true

abbrev pub is_summed : Pc → Bool
is_summed entered = false
is_summed counted = false
is_summed _ = true

abbrev pub is_max_done : Pc → Bool
is_max_done max_done = true
is_max_done locked = true
is_max_done pushed = true
is_max_done finished = true
is_max_done _ = false

abbrev pub is_min_done : Pc → Bool
is_min_done min_done = true
is_min_done (max_loaded v) = true
is_min_done max_done = true
is_min_done locked = true
is_min_done pushed = true
is_min_done finished = true
is_min_done _ = false

abbrev pub is_pushed : Pc → Bool
is_pushed pushed = true
is_pushed finished = true
is_pushed _ = false

-- What a call has loaded is on the right side of the present value.
abbrev pub IsFresh : Cells → Call → Type 0
IsFresh s c = elim c.pc [
  | min_loaded v ↦ s.now.latency_min ≤ v
  | max_loaded v ↦ v ≤ s.now.latency_max
  | _ ↦ Unit
]

pub record Inv (s : Cells) (cs : List Call) : Type 0 where
  pub count : s.now.count ≡ length (past is_counted cs) % 2 ^ 32
  pub latency_sum : s.now.latency_sum ≡ sum (past is_summed cs) % 2 ^ 64
  pub latency_min : s.now.latency_min ≡ least (past is_min_done cs)
  pub latency_max : s.now.latency_max ≡ greatest (past is_max_done cs)
  pub latencies : Perm s.now.latencies (past is_pushed cs)
  pub above : All (λ v. s.now.latency_min ≤ v) s.old_mins
  pub below : All (λ v. v ≤ s.now.latency_max) s.old_maxs
  pub fresh : All (IsFresh s) cs

pub calls-Inv : (ls : List ℕ) → Inv fresh_cells (calls ls)
calls-Inv ls = record {
  count = rw (none is_counted refl ls) refl;
  latency_sum = rw (none is_summed refl ls) refl;
  latency_min = rw (none is_min_done refl ls) refl;
  latency_max = rw (none is_max_done refl ls) refl;
  latencies = rw (none is_pushed refl ls) (Perm.refl []);
  above = tt;
  below = tt;
  fresh = all_fresh ls;
}
  where
    none : (f : Pc → Bool) → f entered ≡ false → (ls : List ℕ) → past f (calls ls) ≡ []
    none f e [] = refl
    none f e (l ∷ ls) = rw e (none f e ls)

    all_fresh : (ls : List ℕ) → All (IsFresh fresh_cells) (calls ls)
    all_fresh [] = tt
    all_fresh (l ∷ ls) = (tt, all_fresh ls)

OneOf-All : (P : ℕ → Type 0) {v : ℕ} (xs : List ℕ) → All P xs → OneOf v xs → P v
OneOf-All P (x ∷ xs) (h, hs) (inl e) = subst P (sym e) h
OneOf-All P (x ∷ xs) (h, hs) (inr m) = OneOf-All P xs hs m
OneOf-All P [] h m = elim m [ ]

pub All-imp : (P Q : ℕ → Type 0) → ((v : ℕ) → P v → Q v) → (xs : List ℕ) → All P xs → All Q xs
All-imp P Q imp [] h = tt
All-imp P Q imp (x ∷ xs) (h, hs) = (imp x h, All-imp P Q imp xs hs)

module _ {s : Cells} {cs : List Call} (inv : Inv s cs) where
  -- A load of the least latency is not below the present one.
  pub loaded_min : {v : ℕ} → OneOf v (s.now.latency_min ∷ s.old_mins) → s.now.latency_min ≤ v
  loaded_min =
      OneOf-All (λ v. s.now.latency_min ≤ v) (s.now.latency_min ∷ s.old_mins)
        (omega arith, inv.above)

  pub loaded_max : {v : ℕ} → OneOf v (s.now.latency_max ∷ s.old_maxs) → v ≤ s.now.latency_max
  loaded_max =
      OneOf-All (λ v. v ≤ s.now.latency_max) (s.now.latency_max ∷ s.old_maxs)
        (omega arith, inv.below)

  module _ {l : ℕ} {p q : Pc} {ds : List Call} (ch : Changed l p q cs ds) where
    -- The call that moves has loaded a value on the right side.
    pub own : IsFresh s (record { latency = l; pc = p })
    own = All-at (IsFresh s) ch inv.fresh

    pub keeps_loads :
        (t : Cells)
        → t.now.latency_min ≤ s.now.latency_min
        → s.now.latency_max ≤ t.now.latency_max
        → IsFresh t (record { latency = l; pc = q })
        → All (IsFresh t) ds
    keeps_loads t lo hi new = All-Changed (IsFresh s) (IsFresh t) imp new ch inv.fresh
      where
        imp : (c : Call) → IsFresh s c → IsFresh t c
        imp c h = ground arith

    pub count_kept :
        is_counted p ≡ is_counted q → s.now.count ≡ length (past is_counted ds) % 2 ^ 32
    count_kept e = rw (past-same is_counted e ch) inv.count

    pub sum_kept : is_summed p ≡ is_summed q → s.now.latency_sum ≡ sum (past is_summed ds) % 2 ^ 64
    sum_kept e = rw (past-same is_summed e ch) inv.latency_sum

    pub min_kept : is_min_done p ≡ is_min_done q → s.now.latency_min ≡ least (past is_min_done ds)
    min_kept e = rw (past-same is_min_done e ch) inv.latency_min

    pub max_kept :
        is_max_done p ≡ is_max_done q → s.now.latency_max ≡ greatest (past is_max_done ds)
    max_kept e = rw (past-same is_max_done e ch) inv.latency_max

    pub latencies_kept : is_pushed p ≡ is_pushed q → Perm s.now.latencies (past is_pushed ds)
    latencies_kept e = rw (past-same is_pushed e ch) inv.latencies

    -- The least latency of the calls that are past the first loop, where one more is.
    pub min_passed :
        is_min_done p ≡ false
        → is_min_done q ≡ true
        → min l s.now.latency_min ≡ least (past is_min_done ds)
    min_passed e e' =
        ap (min l) inv.latency_min ∙ sym (least-Perm (past-passed is_min_done e e' ch))

    pub max_passed :
        is_max_done p ≡ false
        → is_max_done q ≡ true
        → max l s.now.latency_max ≡ greatest (past is_max_done ds)
    max_passed e e' =
        ap (max l) inv.latency_max ∙ sym (greatest-Perm (past-passed is_max_done e e' ch))

    -- A step that loads or compares changes no counter.
    pub looks :
        is_counted p ≡ is_counted q
        → is_summed p ≡ is_summed q
        → is_min_done p ≡ is_min_done q
        → is_max_done p ≡ is_max_done q
        → is_pushed p ≡ is_pushed q
        → IsFresh s (record { latency = l; pc = q })
        → Inv s ds
    looks e₁ e₂ e₃ e₄ e₅ new = record {
      count = count_kept e₁;
      latency_sum = sum_kept e₂;
      latency_min = min_kept e₃;
      latency_max = max_kept e₄;
      latencies = latencies_kept e₅;
      above = inv.above;
      below = inv.below;
      fresh = keeps_loads s (omega arith) (omega arith) new;
    }
