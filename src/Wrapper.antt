-- ===== src/Wrapper.antt =====
-- src/db_wrapper.h: `DBWrapper` puts the cache in front of a database and counts what it does. Its
-- remaining methods throw, or pass a batch on. The timer's answer is an argument.
pub mod Contract
pub mod ShortReplies
pub mod ReadTransactions
pub mod Transactions
pub mod WriteTransactions
pub mod Execute
pub mod Coherence
use taobench.Prelude.{
  ℕ, ℤ, pos, negsuc, ◌==ℤ◌, List, [], ◌∷◌, ◌++◌, Bool, true, false, is_empty, not, length, ◌==◌,
}
use taobench.Db.{
  Field, TimestampValue, DataTable, DbOperation, Operation, Status, k_ok, Outcome, returns, faults,
  Fault, ◌>>=◌, ◌>>◌, assert,
}
use taobench.Database.{Database}
use taobench.Measurements.{Measurements, report, report_read}
use taobench.Cache.Client.{Memcached, is_read}
use taobench.Cache.Client

abbrev pub is_ok : Status → Bool
is_ok k_ok = true
is_ok _ = false

-- `rsl_cache.emplace_back(-1, "")`, the mark of a miss.
abbrev pub miss : TimestampValue
miss = record { timestamp = negsuc 0; value = [] }

module _ (memc : Memcached) (db : Database) where
  pub record Wrapper : Type 0 where
    pub cache : memc.State
    pub store : db.State
    pub measurements : Measurements

  abbrev pub Result : Type 0
  Result = Outcome (Status × List TimestampValue × Wrapper)

  -- `memcache_->put` where the database has answered, and nothing otherwise.
  unfoldable pub put_if_ok :
      Bool → DbOperation → List TimestampValue → memc.State → Outcome memc.State
  put_if_ok true op buffer c = do (stored, c') ← Client.put memc op buffer c; returns c'
  put_if_ok false op buffer c = returns c

  unfoldable pub after_get :
      Bool → DbOperation → List TimestampValue → memc.State → Wrapper → Result
  unfolding put_if_ok
  after_get true op buffer c w =
      returns (k_ok, buffer, record w { cache = c; measurements = report_read true w.measurements })
  after_get false op buffer c w = do
    (status, buffer', d) ← db.execute op buffer w.store
    c' ← put_if_ok (is_ok status) op buffer' c
    returns (
      status,
      buffer',
      record { cache = c'; store = d; measurements = report_read false w.measurements },
    )

  unfoldable pub execute_by : Bool → DbOperation → List TimestampValue → Wrapper → Result
  unfolding after_get
  execute_by true op buffer w = do
    (hit, buffer', c) ← Client.get memc op buffer w.cache
    after_get hit op buffer' c w
  execute_by false op buffer w = do
    (status, buffer', d) ← db.execute op buffer w.store
    let (deleted, c) = Client.invalidate memc op w.cache
    returns (status, buffer', record w { cache = c; store = d })

  -- `measurements_->Report` for a call that succeeded.
  unfoldable pub report_if_ok : Bool → Operation → ℕ → Wrapper → Outcome Wrapper
  report_if_ok true op elapsed w = do
    m ← report op elapsed w.measurements
    returns (record w { measurements = m })
  report_if_ok false op elapsed w = returns w

  -- `Execute`; `elapsed` is what the timer gives at the end.
  unfoldable pub execute : DbOperation → List TimestampValue → ℕ → Wrapper → Result
  unfolding execute_by report_if_ok
  execute op buffer elapsed w = do
    (status, buffer', w') ← execute_by (is_read op.operation) op buffer w
    w'' ← report_if_ok (is_ok status) op.operation elapsed w'
    returns (status, buffer', w'')

  -- The first loop of a read transaction: every operation is looked up in the cache; a miss leaves a
  -- mark among the results and joins the operations that go to the database.
  unfoldable pub look_up :
      List DbOperation
      → List TimestampValue
      → List DbOperation
      → memc.State
      → Measurements
      → Outcome (List TimestampValue × List DbOperation × memc.State × Measurements)
  look_up [] rsl_cache miss_ops c m = returns (rsl_cache, miss_ops, c, m)
  look_up (op ∷ ops) rsl_cache miss_ops c m = do
    (hit, rsl, c') ← Client.get memc op rsl_cache c
    elim hit [
      | true ↦ look_up ops rsl miss_ops c' (report_read true m)
      | false ↦ look_up ops (rsl ++ miss ∷ []) (miss_ops ++ op ∷ []) c' (report_read false m)
    ]

  -- The second loop. `rsl_db` holds the rows from `db_pos` on; to read beyond its end is a fault.
  unfoldable pub fill :
      List DbOperation
      → List TimestampValue
      → List TimestampValue
      → List TimestampValue
      → memc.State
      → Outcome (List TimestampValue × memc.State)
  fill [] rsl_cache rsl_db buffer c = returns (buffer, c)
  fill (op ∷ ops) [] rsl_db buffer c = faults Fault.assertion
  fill (op ∷ ops) (r ∷ rsl_cache) rsl_db buffer c = elim (r.timestamp ==ℤ negsuc 0) [
    | true ↦ (elim rsl_db [
      | [] ↦ faults Fault.out_of_bounds
      | row ∷ rows ↦ (do
        (stored, c') ← Client.put memc op (buffer ++ row ∷ []) c
        fill ops rsl_cache rows (buffer ++ row ∷ []) c')
    ])
    | false ↦ fill ops rsl_cache rsl_db (buffer ++ r ∷ []) c
  ]

  unfoldable pub fill_if_ok :
      Bool
      → List DbOperation
      → List TimestampValue
      → List TimestampValue
      → List TimestampValue
      → memc.State
      → Outcome (List TimestampValue × memc.State)
  unfolding fill
  fill_if_ok true ops rsl_cache rsl_db buffer c = fill ops rsl_cache rsl_db buffer c
  fill_if_ok false ops rsl_cache rsl_db buffer c = returns (buffer, c)

  unfoldable pub invalidate_all : List DbOperation → memc.State → memc.State
  invalidate_all [] c = c
  invalidate_all (op ∷ ops) c = invalidate_all ops (Client.invalidate memc op c).1

  unfoldable pub transaction_by : Bool → List DbOperation → List TimestampValue → Wrapper → Result
  unfolding look_up fill_if_ok invalidate_all
  transaction_by true ops buffer w = do
    (rsl_cache, miss_ops, c, m) ← look_up ops [] [] w.cache w.measurements
    assert (length rsl_cache == length ops)
    (status, rsl_db, d) ← db.execute_transaction miss_ops [] true w.store
    (buffer', c') ← fill_if_ok (is_ok status) ops rsl_cache rsl_db buffer c
    returns (status, buffer', record { cache = c'; store = d; measurements = m })
  transaction_by false ops buffer w = do
    (status, buffer', d) ← db.execute_transaction ops buffer false w.store
    returns (status, buffer', record w { cache = invalidate_all ops w.cache; store = d })

  abbrev transaction_kind : Bool → Operation
  transaction_kind true = Operation.read_transaction
  transaction_kind false = Operation.write_transaction

  -- `ExecuteTransaction`.
  unfoldable pub execute_transaction :
      List DbOperation → List TimestampValue → Bool → ℕ → Wrapper → Result
  unfolding transaction_by report_if_ok
  execute_transaction ops buffer read_only elapsed w = do
    (status, buffer', w') ← transaction_by read_only ops buffer w
    assert (not (is_empty ops))
    w'' ← report_if_ok (is_ok status) (transaction_kind read_only) elapsed w'
    returns (status, buffer', w'')

  -- `BatchInsert` and `BatchRead` pass the call on.
  unfoldable pub batch_insert :
      DataTable → List (List Field) → List TimestampValue → Wrapper → Outcome (Status × Wrapper)
  batch_insert table keys values w = do
    (status, d) ← db.batch_insert table keys values w.store
    returns (status, record w { store = d })

  unfoldable pub batch_read :
      DataTable
      → List Field
      → List Field
      → ℕ
      → List (List Field)
      → Wrapper
      → Outcome (Status × List (List Field) × Wrapper)
  batch_read table floor ceil n key_buffer w = do
    (status, keys, d) ← db.batch_read table floor ceil n key_buffer w.store
    returns (status, keys, record w { store = d })
