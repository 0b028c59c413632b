-- ===== src/Keys/Packing.antt =====
-- The fields of a generated key.
use taobench.Prelude.{ℕ, ◌+◌, ◌*◌, ◌%◌, ◌^◌, ◌≤◌, ◌<◌, ◌≡◌, arith, pos, ap, ◌∙◌}
use taobench.Db.{returns}
use taobench.Keys.{
  to_int64, generate_key, get_shard_from_key, shard_unit, num_shards, get_shard_start_key,
  get_shard_end_key,
}

-- The key of a shard below 64 is the sum of its fields.
pub generate_key-pos :
    (shard seqnum timestamp : ℕ)
    → shard < 64
    → generate_key shard seqnum timestamp
      ≡ pos (shard * shard_unit + seqnum % 2 ^ 17 * 2 ^ 40 + timestamp % 2 ^ 40)
unfolding generate_key to_int64
generate_key-pos shard seqnum timestamp h = ground arith

to_int64-injective : (a b : ℕ) → a < 2 ^ 64 → b < 2 ^ 64 → to_int64 a ≡ to_int64 b → a ≡ b
unfolding to_int64
to_int64-injective a b h k e = ground arith

-- The shard of a generated key is the shard it was generated for, whatever the sequence number and
-- the time.
pub shard-generate_key :
    (shard seqnum timestamp : ℕ)
    → shard < 64
    → get_shard_from_key (generate_key shard seqnum timestamp) ≡ pos shard
unfolding get_shard_from_key
shard-generate_key shard seqnum timestamp h =
    rw (generate_key-pos shard seqnum timestamp h) (ap pos (omega arith))

-- Below 128 shards, as many as the 7 bits tell apart, two generated keys are equal only if their
-- shards are equal, and their sequence numbers and times in the 17 and 40 bits that the key keeps
-- of them, whether the key is negative or not.
pub generate_key-injective :
    (s n t s' n' t' : ℕ)
    → s < 128
    → s' < 128
    → generate_key s n t ≡ generate_key s' n' t'
    → (s ≡ s') × (n % 2 ^ 17 ≡ n' % 2 ^ 17) × (t % 2 ^ 40 ≡ t' % 2 ^ 40)
unfolding generate_key
generate_key-injective s n t s' n' t' h k e =
    let same =
      to_int64-injective (s * shard_unit + n % 2 ^ 17 * 2 ^ 40 + t % 2 ^ 40)
        (s' * shard_unit + n' % 2 ^ 17 * 2 ^ 40 + t' % 2 ^ 40) (omega arith) (omega arith) e in
    omega arith

-- A key of a shard that exists is at least the start key of its shard and below the end key, and
-- these two bounds are there for every shard, below 2^63.
pub generate_key_bounds :
    (shard seqnum timestamp : ℕ)
    → shard < num_shards
    → (start : ℕ) × (end : ℕ) × (key : ℕ) × (get_shard_start_key (pos shard) ≡ returns start)
      × (get_shard_end_key (pos shard) ≡ returns end)
      × (generate_key shard seqnum timestamp ≡ pos key)
      × (start ≤ key)
      × (key < end)
      × (end < 2 ^ 63)
unfolding get_shard_start_key get_shard_end_key
generate_key_bounds shard seqnum timestamp h = (
  shard * shard_unit,
  (shard + 1) * shard_unit,
  shard * shard_unit + seqnum % 2 ^ 17 * 2 ^ 40 + timestamp % 2 ^ 40,
  ground arith,
  ground arith,
  generate_key-pos shard seqnum timestamp (omega arith),
  omega arith,
  omega arith,
  omega arith,
)

-- The start key of a shard below 50 is itself a key of the shard, at sequence number and time 0 in
-- their bits.
pub start_key_generated :
    (shard seqnum timestamp : ℕ)
    → shard < num_shards
    → seqnum % 2 ^ 17 ≡ 0
    → timestamp % 2 ^ 40 ≡ 0
    → (start : ℕ) × (get_shard_start_key (pos shard) ≡ returns start)
      × (generate_key shard seqnum timestamp ≡ pos start)
unfolding get_shard_start_key
start_key_generated shard seqnum timestamp h n t = (
  shard * shard_unit,
  ground arith,
  generate_key-pos shard seqnum timestamp (omega arith) ∙ ap pos (omega arith),
)
