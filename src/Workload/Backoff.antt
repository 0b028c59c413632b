-- ===== src/Workload/Backoff.antt =====
-- How often a request is repeated.
use taobench.Prelude.{
  ℕ, zero, suc, ◌-◌, ◌*◌, ◌%◌, ◌^◌, ◌<◌, ◌≤◌, ltb, some, true, false, ◌≡◌, ◌≢◌, refl, ap, ◌∙◌,
  arith,
}
use taobench.Db.{Status, k_ok, k_contention_error, returns, faults, Fault}
use taobench.Database.{Database}
use taobench.Workload.{Source, Workload}
use taobench.Workload.Retries.{
  Session, initial_limit, next_limit, is_ok, is_contention, dispatch_request, pause, retry,
  do_request,
}

-- The bound of the pause after a number of repetitions.
abbrev pub doubled : ℕ → ℕ → ℕ
doubled zero limit = limit
doubled (suc k) limit = doubled k (limit * 2)

doubled_bounds : (k limit : ℕ) → limit ≤ doubled k limit
doubled_bounds zero limit = omega arith
doubled_bounds (suc k) limit = omega (arith, doubled_bounds k (limit * 2))

doubled_mono : (k j limit : ℕ) → k ≤ j → doubled k limit ≤ doubled j limit
doubled_mono zero j limit h = doubled_bounds j limit
doubled_mono (suc k) zero limit h = absurd (omega arith)
doubled_mono (suc k) (suc j) limit h = doubled_mono k j (limit * 2) (omega arith)

next_limit_lem : (limit : ℕ) → next_limit limit ≡ limit * 2
unfolding next_limit
next_limit_lem limit = omega arith

not_contention : (status : Status) → status ≢ k_contention_error → is_contention status ≡ false
unfolding is_contention
not_contention k_contention_error h = absurd (h refl)
not_contention k_ok h = refl
not_contention Status.k_error h = refl
not_contention Status.k_not_found h = refl
not_contention Status.k_not_implemented h = refl

module _ (source : Source) (w : Workload) (db : Database) (fuel : ℕ) where
  -- From the first session a number of requests in a row end in a contention error, with the pauses
  -- between them, and lead to the second session.
  pub data Contends : ℕ → ℕ → Session source w db → Session source w db → Type 0 where
    done : {limit : ℕ} {x : Session source w db} → Contends 0 limit x x
    again :
        {k limit : ℕ} {x y : Session source w db} (g : source.State) (n : ℕ) (s : db.State)
        → dispatch_request source w db fuel x ≡ returns (some (k_contention_error, ((g, n), s)))
        → Contends k (limit * 2) (((source.below (suc limit) g).1, n), s) y
        → Contends (suc k) limit x y

  pause-returns :
      (limit : ℕ) (g : source.State) (n : ℕ) (s : db.State)
      → limit < 2 ^ 31
      → pause source w db limit ((g, n), s) ≡ returns (((source.below (suc limit) g).1, n), s)
  unfolding pause
  pause-returns limit g n s h = rw small refl
    where
      small : ltb (limit % 2 ^ 32) (2 ^ 31) ≡ true
      small = ground arith

  retry-Contends :
      (k retries limit : ℕ) (x y : Session source w db)
      → Contends k limit x y
      → k < retries
      → doubled k limit < 2 ^ 32
      → retry source w db retries fuel limit x
        ≡ retry source w db (retries - k) fuel (doubled k limit) y
  unfolding retry is_contention
  retry-Contends k zero limit x y c h b = absurd (omega arith)
  retry-Contends zero (suc r) limit x y Contends.done h b =
      ap (λ m. retry source w db m fuel limit x) {x = suc r} (omega arith)
  retry-Contends (suc k) (suc r) limit x y (Contends.again g n s e more) h b =
      rw
        (
          e,
          pause-returns limit g n s (omega (arith, doubled_bounds k (limit * 2))),
          next_limit_lem limit,
        )
        (retry-Contends k r (limit * 2) _ y more (omega arith) b
          ∙ ap (λ m. retry source w db m fuel (doubled k (limit * 2)) y) (omega arith))

  last_request :
      (m limit : ℕ) (y y' : Session source w db) (status : Status)
      → 0 < m
      → dispatch_request source w db fuel y ≡ returns (some (status, y'))
      → is_contention status ≡ false
      → retry source w db m fuel limit y ≡ returns (some (is_ok status, y'))
  unfolding retry
  last_request zero limit y y' status p e h = absurd (omega arith)
  last_request (suc m) limit y y' status p e h = rw (e, h) refl

  too_long :
      (m : ℕ) (y y' : Session source w db)
      → 0 < m
      → dispatch_request source w db fuel y ≡ returns (some (k_contention_error, y'))
      → retry source w db m fuel (doubled 21 initial_limit) y ≡ faults Fault.out_of_range
  unfolding retry is_contention pause
  too_long zero y y' p e = absurd (omega arith)
  too_long (suc m) y ((g, n), s) p e = rw e refl

  -- After at most 21 contention errors in a row, a request with any other status ends `DoRequest`, which
  -- returns whether the status is `kOK`.
  pub retries_end :
      (k retries : ℕ) (x y y' : Session source w db) (status : Status)
      → Contends k initial_limit x y
      → k < retries
      → k ≤ 21
      → dispatch_request source w db fuel y ≡ returns (some (status, y'))
      → status ≢ k_contention_error
      → do_request source w db retries fuel x ≡ returns (some (is_ok status, y'))
  unfolding do_request
  retries_end k retries x y y' status c h few e other =
      retry-Contends k retries initial_limit x y c h
        (omega (arith, doubled_mono k 21 initial_limit few))
      ∙ last_request (retries - k) (doubled k initial_limit) y y' status (omega arith) e
          (not_contention status other)

  -- The 22nd contention error in a row faults: the bound of the pause, doubled 21 times, is beyond the
  -- range of an `int`.
  pub long_contention_faults :
      (retries : ℕ) (x y y' : Session source w db)
      → Contends 21 initial_limit x y
      → 21 < retries
      → dispatch_request source w db fuel y ≡ returns (some (k_contention_error, y'))
      → do_request source w db retries fuel x ≡ faults Fault.out_of_range
  unfolding do_request
  long_contention_faults retries x y y' c h e =
      retry-Contends 21 retries initial_limit x y c h (omega arith)
      ∙ too_long (retries - 21) y y' (omega arith) e
