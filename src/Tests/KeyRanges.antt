-- ===== src/Tests/KeyRanges.antt =====
-- The theorems about keys and the division of shards at concrete inputs.
use taobench.Prelude.{ℕ, ◌%◌, ◌^◌, ◌≡◌, refl, arith}
use taobench.Keys.{generate_key}
use taobench.Keys.Packing.{generate_key-injective}

generate_key-injective_example :
    (◌≡◌ {A = ℕ} 3 3) × (131073 % 2 ^ 17 ≡ 1 % 2 ^ 17) × (5 % 2 ^ 40 ≡ 5 % 2 ^ 40)
unfolding generate_key
generate_key-injective_example =
    generate_key-injective 3 131073 5 3 1 5 (omega arith) (omega arith) refl
