-- ===== src/Workload/Retries.antt =====
-- `DispatchRequest` and `DoRequest`: a request is sent again as long as it ends in a contention error,
-- after a pause whose bound doubles.
use taobench.Prelude.{
  ℕ, zero, suc, ◌*◌, ◌%◌, ◌^◌, ltb, max, codes, List, [], Option, some, none, Bool, true, false,
  if◌then◌else◌,
}
use taobench.Db.{
  TimestampValue, DbOperation, Status, k_ok, k_contention_error, Outcome, returns, faults, Fault,
  ◌>>=◌,
}
use taobench.Database.{Database}
use taobench.Workload.{
  Source, Workload, Run, get_read_operation, get_write_operation, get_read_transaction,
  get_write_transaction,
}

-- `INITIAL_BACKOFF_LIMIT_MICROS`.
abbrev pub initial_limit : ℕ
initial_limit = 2000

-- `max(backoff_limit * 2, backoff_limit)`, below the bound of an `int64_t`.
unfoldable pub next_limit : ℕ → ℕ
next_limit limit = max (limit * 2) limit

unfoldable pub is_ok : Status → Bool
is_ok k_ok = true
is_ok _ = false

unfoldable pub is_contention : Status → Bool
is_contention k_contention_error = true
is_contention _ = false

module _ (source : Source) (w : Workload) (db : Database) where
  -- The state of the workload and of the database.
  abbrev pub Session : Type 0
  Session = Run source w × db.State

  abbrev of_result :
      Run source w
      → Outcome (Status × List TimestampValue × db.State)
      → Outcome (Option (Status × Session))
  of_result r result = do (status, buffer, s) ← result; returns (some (status, (r, s)))

  unfoldable pub send :
      Outcome (Option (DbOperation × Run source w)) → db.State → Outcome (Option (Status × Session))
  send made s = do
    chosen ← made
    elim chosen [ none ↦ returns none | some (op, r) ↦ of_result r (db.execute op [] s) ]

  unfoldable pub send_transaction :
      Outcome (Option (List DbOperation × Run source w))
      → Bool
      → db.State
      → Outcome (Option (Status × Session))
  send_transaction made read_only s = do
    chosen ← made
    elim chosen [
      | none ↦ returns none
      | some (ops, r) ↦ of_result r (db.execute_transaction ops [] read_only s)
    ]

  -- The kinds of requests, by the index that is drawn.
  unfoldable pub dispatch_by : ℕ → ℕ → Session → Outcome (Option (Status × Session))
  unfolding send send_transaction get_read_operation get_write_operation get_read_transaction
      get_write_transaction
  dispatch_by fuel zero (r, s) = send (get_read_operation source w fuel false r) s
  dispatch_by fuel (suc zero) (r, s) = send (get_write_operation source w fuel false r) s
  dispatch_by fuel (suc (suc zero)) (r, s) =
      send_transaction (get_read_transaction source w fuel r) true s
  dispatch_by fuel (suc (suc (suc zero))) (r, s) =
      send_transaction (get_write_transaction source w fuel r) false s
  dispatch_by fuel _ (r, s) = faults Fault.invalid_argument

  unfoldable pub dispatch_request : ℕ → Session → Outcome (Option (Status × Session))
  unfolding dispatch_by
  dispatch_request fuel ((g, n), s) =
      let (kind, g') = source.draw (codes "operations") g in dispatch_by fuel kind ((g', n), s)

  -- The pause is drawn from 0 to the bound, which becomes an `int` there: a negative one violates the
  -- precondition of the distribution.
  unfoldable pub pause : ℕ → Session → Outcome Session
  pause limit ((g, n), s) =
      if ltb (limit % 2 ^ 32) (2 ^ 31)
      then returns (((source.below (suc limit) g).1, n), s)
      else faults Fault.out_of_range

  -- The loop, with a limit on the repetitions and the fuel of a request.
  unfoldable pub retry : ℕ → ℕ → ℕ → Session → Outcome (Option (Bool × Session))
  unfolding dispatch_request pause next_limit is_ok is_contention
  retry zero fuel limit x = returns none
  retry (suc k) fuel limit x = do
    result ← dispatch_request fuel x
    elim result [
      | none ↦ returns none
      | some (status, x') ↦
          if is_contention status
          then (do x'' ← pause limit x'; retry k fuel (next_limit limit) x'')
          else returns (some (is_ok status, x'))
    ]

  unfoldable pub do_request : ℕ → ℕ → Session → Outcome (Option (Bool × Session))
  unfolding retry
  do_request retries fuel x = retry retries fuel initial_limit x
