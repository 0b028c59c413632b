-- ===== src/Inserting/Shares.antt =====
-- The rows of all threads are the rows that were asked for.
use taobench.Prelude.{ℕ, zero, suc, ◌+◌, ◌*◌, ◌/◌, ◌%◌, ◌<◌, min, ◌≡◌, arith}
use taobench.Inserting.{rows_of_thread}

-- The rows of the first `k` threads.
abbrev pub rows_of_first : ℕ → ℕ → ℕ → ℕ
rows_of_first total_keys num_threads zero = 0
rows_of_first total_keys num_threads (suc k) =
    rows_of_first total_keys num_threads k + rows_of_thread total_keys num_threads k

first_rows : (total n k : ℕ) → rows_of_first total n k ≡ k * (total / n) + min k (total % n)
unfolding rows_of_thread
first_rows total n zero = omega arith
first_rows total n (suc k) = grind (arith, first_rows total n k)

-- Divided among any number of threads but none, the rows of the threads add up to the rows of the
-- batch insert.
pub rows_of_thread-total : (total n : ℕ) → 0 < n → rows_of_first total n n ≡ total
rows_of_thread-total total n h = grind (arith, first_rows total n n)
