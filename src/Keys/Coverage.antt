-- ===== src/Keys/Coverage.antt =====
-- Whether the ranges of the batch read cover every shard once: they do if the number of threads
-- divides the number of shards, and only then.
use taobench.Prelude.{
  ℕ, zero, suc, ◌+◌, ◌-◌, ◌*◌, ◌/◌, ◌%◌, ◌≤◌, ◌<◌, ◌≡◌, ◌≢◌, refl, arith, leb, if◌then◌else◌, List,
  [], ◌∷◌, All, Bool-cases, inl, inr, ap, ◌∙◌, subst, true,
}
use taobench.Db.{returns}
use taobench.Keys.{num_shards, shard_unit, divide_shards}
use taobench.Keys.Division.{ranges_from, divide_shards_lem, quotient, quotient_pos}

-- The ranges follow one another from the first key to the last, and none is empty.
abbrev pub IsChain : ℕ → List (ℕ × ℕ) → ℕ → Type 0
IsChain a [] b = a ≡ b
IsChain a ((start, end) ∷ rs) b = (start ≡ a) × (start < end) × IsChain end rs b

leb_zero : (i : ℕ) → leb 0 i ≡ true
leb_zero i = ground arith

no_extra : (start k : ℕ) → (start + k + 0) * shard_unit ≡ (start + k) * shard_unit
no_extra start k = omega arith

ranges_from-IsChain :
    (k left i start : ℕ)
    → 0 < k
    → IsChain (start * shard_unit) (ranges_from 0 k left i start) ((start + left * k) * shard_unit)
unfolding ranges_from
ranges_from-IsChain k zero i start p = omega arith
ranges_from-IsChain k (suc left) i start p = rw (leb_zero i) (
  refl,
  omega arith,
  rw (no_extra start k, regroup) (ranges_from-IsChain k left (suc i) (start + k) p),
)
  where
    regroup : (start + suc left * k) * shard_unit ≡ (start + k + left * k) * shard_unit
    regroup = omega arith

-- If the number of threads, from 1 to 50, divides the number of shards, the ranges of the loaders follow one
-- another without gap or overlap from the first key of the first shard to the end of the last.
pub division_exact :
    (n : ℕ)
    → 0 < n
    → n ≤ num_shards
    → num_shards % n ≡ 0
    → (rs : List (ℕ × ℕ)) × (divide_shards n ≡ returns rs) × IsChain 0 rs (num_shards * shard_unit)
division_exact n p h e = (
  ranges_from 0 (num_shards / n) n 0 0,
  divide_shards_lem n p h ∙ ap (λ r. returns (ranges_from r (num_shards / n) n 0 0)) e,
  subst (λ m. IsChain 0 (ranges_from 0 (num_shards / n) n 0 0) (m * shard_unit)) whole
      (ranges_from-IsChain (num_shards / n) n 0 0 (quotient_pos n p h)),
)
  where
    whole : 0 + n * (num_shards / n) ≡ num_shards
    whole = omega (arith, quotient n)

last_bound :
    (k r i left start : ℕ)
    → 0 < k
    → 0 < r
    → (left ≡ 0 → r ≤ i)
    → start + suc left * k + r ≡ num_shards
    → start + k + (if leb r i then 0 else 1) ≤ num_shards - 1
last_bound k r i zero start a b c e = let h = c refl in ground arith
last_bound k r i (suc left) start a b c e = elim (Bool-cases (leb r i)) [
  | inl q ↦ rw q (omega arith)
  | inr q ↦ rw q (omega arith)
]

misses_last :
    (n k r left i start : ℕ)
    → 0 < k
    → 0 < r
    → r < n
    → i + left ≡ n
    → start + left * k + r ≡ num_shards
    → All (λ range. range.1 ≤ (num_shards - 1) * shard_unit) (ranges_from r k left i start)
unfolding ranges_from
misses_last n k r zero i start a b c d e = tt
misses_last n k r (suc left) i start a b c d e = (
  omega (arith, last_bound k r i left start a b (λ z. omega arith) e),
  misses_last n k r left (suc i) (start + k) a b c (omega arith) (omega arith),
)

-- If the number of threads, from 1 to 50, does not divide it, every range ends at or before the start key of the last shard, so that no loader reads
-- an edge of that shard.
pub division_misses_last :
    (n : ℕ)
    → 0 < n
    → n ≤ num_shards
    → num_shards % n ≢ 0
    → (rs : List (ℕ × ℕ)) × (divide_shards n ≡ returns rs)
      × All (λ range. range.1 ≤ (num_shards - 1) * shard_unit) rs
division_misses_last n p h ne = (
  ranges_from (num_shards % n) (num_shards / n) n 0 0,
  divide_shards_lem n p h,
  misses_last n (num_shards / n) (num_shards % n) n 0 0 (quotient_pos n p h) (omega arith)
      (grind arith) (omega arith) (quotient n),
)

ranges_overlap :
    (r k t : ℕ)
    → 0 < r
    → 0 < k
    → (a b : ℕ × ℕ) × (rs : List (ℕ × ℕ)) × (ranges_from r k (suc (suc t)) 0 0 ≡ a ∷ b ∷ rs)
      × (b.0 + shard_unit ≡ a.1)
      × (b.0 < b.1)
unfolding ranges_from
ranges_overlap r k t p q = (
  (0 * shard_unit, (0 + k + (if leb r 0 then 0 else 1)) * shard_unit),
  ((0 + k) * shard_unit, (0 + k + k + (if leb r 1 then 0 else 1)) * shard_unit),
  ranges_from r k t 2 (0 + k + k),
  refl,
  ground arith,
  omega arith,
)

-- If the number of threads, from 2 to 50, does not divide it, the range of the second thread starts a
-- shard before that of the first ends, and is not empty.
pub division_overlaps :
    (t : ℕ)
    → suc (suc t) ≤ num_shards
    → num_shards % suc (suc t) ≢ 0
    → (a b : ℕ × ℕ) × (rs : List (ℕ × ℕ)) × (divide_shards (suc (suc t)) ≡ returns (a ∷ b ∷ rs))
      × (b.0 + shard_unit ≡ a.1)
      × (b.0 < b.1)
division_overlaps t h ne =
    let n = suc (suc t) in
    let (a, b, rs, same, late, full) =
      ranges_overlap (num_shards % n) (num_shards / n) t (omega arith)
        (quotient_pos n (omega arith) h) in
    (a, b, rs, divide_shards_lem n (omega arith) h ∙ ap returns same, late, full)
