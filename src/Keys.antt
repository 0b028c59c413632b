-- ===== src/Keys.antt =====
-- The 64-bit keys: src/workload.cc packs a shard, a sequence number and a time into a key,
-- src/workload_loader.cc reads the shard back, and src/benchmark.cc divides the shards among the
-- threads of the batch read. Keys are `int64_t`; the bounds of the 50 shards stay below 2^63.
pub mod Packing
pub mod Division
pub mod Coverage
use taobench.Prelude.{
  ℕ, zero, suc, ◌+◌, ◌-◌, ◌*◌, ◌/◌, ◌%◌, ◌^◌, min, ltb, leb, if◌then◌else◌, List, [], ◌∷◌, ℤ, pos,
  negsuc, Bool, true, false, ◌||◌, ltb_ℤ,
}
use taobench.Db.{Outcome, returns, faults, Fault, ◌>>=◌}

-- src/constants.h.
abbrev pub num_shards : ℕ
num_shards = 50

abbrev pub shard_unit : ℕ
shard_unit = 2 ^ 57

-- The number that 64 bits stand for in two's complement.
unfoldable pub to_int64 : ℕ → ℤ
to_int64 n = let m = n % 2 ^ 64 in if ltb m (2 ^ 63) then pos m else negsuc (2 ^ 64 - (m + 1))

-- `GenerateKey`: 7 bits of shard, 17 bits of the thread's sequence number and 40 bits of the time.
-- `seqnum & 0x1FFFF` and `timestamp & 0xFFFFFFFFFF` are remainders; the sequence number is unsigned
-- and the time is not negative. The shift and the sums are made in `int64_t`: they keep 64 bits, and
-- from shard 64 on the key is negative.
unfoldable pub generate_key : ℕ → ℕ → ℕ → ℤ
unfolding to_int64
generate_key shard seqnum timestamp =
    to_int64 (shard * shard_unit + seqnum % 2 ^ 17 * 2 ^ 40 + timestamp % 2 ^ 40)

-- `counter::key_count++`, a `uint32_t`.
unfoldable pub next_count : ℕ → ℕ
next_count n = (n + 1) % 2 ^ 32

-- `GetShardFromKey`: `id >> 57`, which rounds down.
unfoldable pub get_shard_from_key : ℤ → ℤ
get_shard_from_key (pos n) = pos (n / shard_unit)
get_shard_from_key (negsuc n) = negsuc (n / shard_unit)

-- `GetShardStartKey` and `GetShardEndKey`, whose argument is an `int`.
unfoldable pub get_shard_start_key : ℤ → Outcome ℕ
get_shard_start_key (pos shard) =
    if ltb shard num_shards then returns (shard * shard_unit) else faults Fault.runtime_error
get_shard_start_key (negsuc n) = faults Fault.runtime_error

unfoldable pub get_shard_end_key : ℤ → Outcome ℕ
get_shard_end_key (pos shard) =
    if ltb shard num_shards then returns ((shard + 1) * shard_unit) else faults Fault.runtime_error
get_shard_end_key (negsuc n) = faults Fault.runtime_error

-- The loop of `RunTransactions` over the threads that are left, from thread `i` on: the first and
-- the last shard that a thread's loader is given. `end_for_thread--` is made in `int`, and may give -1.
unfoldable pub pred_int : ℕ → ℤ
pred_int zero = negsuc 0
pred_int (suc n) = pos n

unfoldable pub end_shard : ℕ → ℕ → ℕ → ℕ → ℤ
unfolding pred_int
end_shard num_threads per_thread i start =
    let end_for_thread = min (start + per_thread) num_shards in
    if leb (num_shards % num_threads) i then pred_int end_for_thread else pos end_for_thread

unfoldable pub divide_from : ℕ → ℕ → ℕ → ℕ → ℕ → Outcome (List (ℕ × ℕ))
unfolding end_shard get_shard_start_key get_shard_end_key
divide_from num_threads per_thread zero i start = returns []
divide_from num_threads per_thread (suc left) i start = do
  start_key ← get_shard_start_key (pos start)
  end_key ← get_shard_end_key (end_shard num_threads per_thread i start)
  rest ← divide_from num_threads per_thread left (suc i) (start + per_thread)
  returns ((start_key, end_key) ∷ rest)

-- The ranges of keys of all loaders. More threads than shards are refused; no thread at all is a
-- division by zero; a negative number is not modelled.
unfoldable pub divide_shards : ℕ → Outcome (List (ℕ × ℕ))
unfolding divide_from
divide_shards zero = faults Fault.division_by_zero
divide_shards (suc t) =
    let ranges = divide_from (suc t) (num_shards / suc t) (suc t) 0 0 in
    if ltb num_shards (suc t) then faults Fault.invalid_argument else ranges
