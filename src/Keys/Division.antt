-- ===== src/Keys/Division.antt =====
-- Which shards the threads of the batch read are given.
use taobench.Prelude.{
  ℕ, zero, suc, ◌+◌, ◌*◌, ◌/◌, ◌%◌, ◌≤◌, ◌<◌, ◌≡◌, refl, arith, leb, if◌then◌else◌, List, [], ◌∷◌,
  pos, Bool-cases, le→ltb, inl, inr, ap,
}
use taobench.Db.{returns}
use taobench.Keys.{
  num_shards, shard_unit, get_shard_start_key, get_shard_end_key, pred_int, end_shard, divide_from,
  divide_shards,
}

-- The ranges in closed form: `per_thread` shards from `start` on, and one more for the first `extra`
-- threads; the next thread starts after `per_thread` shards all the same.
unfoldable pub ranges_from : ℕ → ℕ → ℕ → ℕ → ℕ → List (ℕ × ℕ)
ranges_from extra per_thread zero i start = []
ranges_from extra per_thread (suc left) i start =
    (start * shard_unit, (start + per_thread + (if leb extra i then 0 else 1)) * shard_unit)
    ∷ ranges_from extra per_thread left (suc i) (start + per_thread)

suc_lem : (a k : ℕ) → a + suc k ≡ suc (a + k)
suc_lem a k = omega arith

pub quotient : (n : ℕ) → 0 + n * (num_shards / n) + num_shards % n ≡ num_shards
quotient n = grind arith

pub quotient_pos : (n : ℕ) → 0 < n → n ≤ num_shards → 0 < num_shards / n
quotient_pos n p h = grind arith

start_lem :
    (shard : ℕ) → shard < 50 → get_shard_start_key (pos shard) ≡ returns (shard * shard_unit)
unfolding get_shard_start_key
start_lem shard h = ground arith

end_shard_lem :
    (n k i start r : ℕ)
    → num_shards % n ≡ r
    → start + k ≤ 50
    → end_shard n k i start ≡ (if leb r i then pred_int (start + k) else pos (start + k))
unfolding end_shard
end_shard_lem n k i start r q h =
    rw q (ap (λ m. if leb r i then pred_int m else pos m) (omega arith))

end_lem :
    (k i start r : ℕ)
    → 0 < k
    → start + k ≤ 50
    → (i < r → start + k < 50)
    → get_shard_end_key (if leb r i then pred_int (start + k) else pos (start + k))
      ≡ returns ((start + k + (if leb r i then 0 else 1)) * shard_unit)
unfolding get_shard_end_key pred_int
end_lem (suc k) i start r p h g = elim (Bool-cases (leb r i)) [
  | inl e ↦ rw e (rw (suc_lem start k) (ground arith))
  | inr e ↦ rw e (let b = g (ground arith) in ground arith)
]
end_lem zero i start r p h g = absurd (omega arith)

-- The loop gives these ranges, as long as there are shards for the threads that are left.
divide_from_lem :
    (n k r left i start : ℕ)
    → num_shards % n ≡ r
    → 0 < k
    → start + left * k + r ≡ 50
    → divide_from n k left i start ≡ returns (ranges_from r k left i start)
unfolding divide_from ranges_from
divide_from_lem n k r zero i start q p h = refl
divide_from_lem n k r (suc left) i start q p h =
    rw
      (
        start_lem start (grind arith),
        end_shard_lem n k i start r q (omega arith),
        end_lem k i start r p (omega arith) (λ g. omega arith),
        divide_from_lem n k r left (suc i) (start + k) q p (omega arith),
      )
      refl

-- For up to 50 threads the loop gives every thread a range, and no bound is invalid.
pub divide_shards_lem :
    (n : ℕ)
    → 0 < n
    → n ≤ num_shards
    → divide_shards n ≡ returns (ranges_from (num_shards % n) (num_shards / n) n 0 0)
unfolding divide_shards
divide_shards_lem zero p h = absurd (omega arith)
divide_shards_lem (suc t) p h =
    rw
      (
        le→ltb num_shards (suc t) h,
        divide_from_lem (suc t) (num_shards / suc t) (num_shards % suc t) (suc t) 0 0 refl
            (quotient_pos (suc t) p h) (quotient (suc t)),
      )
      refl
