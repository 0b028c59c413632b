-- ===== src/Measurements/Past.antt =====
-- The latencies of the calls that are past a point of `Report`, and what a step does to them; and the
-- entry after a list of latencies reported one after another.
use mathlib.Core.List.{Perm, foldr}
use mathlib.Core.List.Perm
use native.Mathlib.Nat.{ℕ_set}
use taobench.Prelude.{
  ℕ, suc, ◌+◌, ◌%◌, ◌^◌, ◌≤◌, ◌<◌, min, max, List, [], ◌∷◌, ◌++◌, ◌≡◌, refl, sym, ap, ◌∙◌, Bool,
  true, false, if◌then◌else◌, length, All, arith, append-nil, append_assoc,
}
use taobench.Measurements.{OpStats, record_latency, uint64_max}
use taobench.Measurements.Concurrent.{Pc, Call, Changed, here, there}

abbrev pub past : (Pc → Bool) → List Call → List ℕ
past f [] = []
past f (c ∷ cs) = if f c.pc then c.latency ∷ past f cs else past f cs

module _ (f : Pc → Bool) {l : ℕ} {p q : Pc} where
  -- A step that does not pass the point leaves the latencies.
  pub past-same : {cs ds : List Call} → f p ≡ f q → Changed l p q cs ds → past f ds ≡ past f cs
  past-same e here = rw e refl
  past-same e (there {c} ch) = rw (past-same e ch) refl

  -- A step that passes the point adds its latency.
  pub past-passed :
      {cs ds : List Call}
      → f p ≡ false
      → f q ≡ true
      → Changed l p q cs ds
      → Perm (past f ds) (l ∷ past f cs)
  past-passed e e' (here {cs}) = rw (e, e') (Perm.refl (l ∷ past f cs))
  past-passed e e' (there {c} {cs} {ds} ch) = under (f c.pc) c.latency (past-passed e e' ch)
    where
      under :
          (b : Bool) (x : ℕ) {xs ys : List ℕ}
          → Perm ys (l ∷ xs)
          → Perm (if b then x ∷ ys else ys) (l ∷ (if b then x ∷ xs else xs))
      under true x {xs} h = Perm.trans (Perm.cons x h) (Perm.swap l x xs)
      under false x h = h

pub All-Changed :
    {l : ℕ} {p q : Pc} {cs ds : List Call} (P Q : Call → Type 0)
    → ((c : Call) → P c → Q c)
    → Q (record { latency = l; pc = q })
    → Changed l p q cs ds
    → All P cs
    → All Q ds
All-Changed P Q imp new (here {cs}) (h, hs) = (new, rest cs hs)
  where
    rest : (cs : List Call) → All P cs → All Q cs
    rest [] h = tt
    rest (c ∷ cs) (h, hs) = (imp c h, rest cs hs)
All-Changed P Q imp new (there {c} ch) (h, hs) = (imp c h, All-Changed P Q imp new ch hs)

pub All-at :
    {l : ℕ} {p q : Pc} {cs ds : List Call} (P : Call → Type 0)
    → Changed l p q cs ds
    → All P cs
    → P (record { latency = l; pc = p })
All-at P here (h, hs) = h
All-at P (there ch) (h, hs) = All-at P ch hs

abbrev pub sum : List ℕ → ℕ
sum = foldr ◌+◌ 0

abbrev pub least : List ℕ → ℕ
least = foldr min uint64_max

abbrev pub greatest : List ℕ → ℕ
greatest = foldr max 0

pub length-Perm : {xs ys : List ℕ} → Perm xs ys → length xs ≡ length ys
length-Perm {xs} {ys} h =
    sym (as_fold xs) ∙ Perm.foldr-eq ℕ_set (λ a n. suc n) (λ a b n. refl) h 0 ∙ as_fold ys
  where
    as_fold : (xs : List ℕ) → foldr (λ a n. suc n) 0 xs ≡ length xs
    as_fold [] = refl
    as_fold (x ∷ xs) = ap suc (as_fold xs)

pub sum-Perm : {xs ys : List ℕ} → Perm xs ys → sum xs ≡ sum ys
sum-Perm h = Perm.foldr-eq ℕ_set ◌+◌ (λ a b n. omega arith) h 0

pub least-Perm : {xs ys : List ℕ} → Perm xs ys → least xs ≡ least ys
least-Perm h = Perm.foldr-eq ℕ_set min (λ a b n. omega arith) h uint64_max

pub greatest-Perm : {xs ys : List ℕ} → Perm xs ys → greatest xs ≡ greatest ys
greatest-Perm h = Perm.foldr-eq ℕ_set max (λ a b n. omega arith) h 0

-- `Report` on one entry for each latency, one after another.
abbrev pub record_all : List ℕ → OpStats → OpStats
record_all [] s = s
record_all (l ∷ ls) s = record_all ls (record_latency l s)

pub count-record_all :
    (ls : List ℕ) (s : OpStats)
    → s.count < 2 ^ 32
    → (record_all ls s).count ≡ (s.count + length ls) % 2 ^ 32
unfolding record_latency
count-record_all [] s h = omega arith
count-record_all (l ∷ ls) s h =
    omega (arith, count-record_all ls (record_latency l s) (omega arith))

pub sum-record_all :
    (ls : List ℕ) (s : OpStats)
    → s.latency_sum < 2 ^ 64
    → (record_all ls s).latency_sum ≡ (s.latency_sum + sum ls) % 2 ^ 64
unfolding record_latency
sum-record_all [] s h = omega arith
sum-record_all (l ∷ ls) s h = omega (arith, sum-record_all ls (record_latency l s) (omega arith))

pub least-record_all :
    (ls : List ℕ) (s : OpStats)
    → s.latency_min ≤ uint64_max
    → (record_all ls s).latency_min ≡ min s.latency_min (least ls)
unfolding record_latency
least-record_all [] s h = omega arith
least-record_all (l ∷ ls) s h =
    ground (arith, least-record_all ls (record_latency l s) (ground arith))

pub greatest-record_all :
    (ls : List ℕ) (s : OpStats) → (record_all ls s).latency_max ≡ max s.latency_max (greatest ls)
unfolding record_latency
greatest-record_all [] s = omega arith
greatest-record_all (l ∷ ls) s = ground (arith, greatest-record_all ls (record_latency l s))

pub latencies-record_all :
    (ls : List ℕ) (s : OpStats) → (record_all ls s).latencies ≡ s.latencies ++ ls
unfolding record_latency
latencies-record_all [] s = sym (append-nil s.latencies)
latencies-record_all (l ∷ ls) s =
    latencies-record_all ls (record_latency l s) ∙ append_assoc s.latencies (l ∷ []) ls
