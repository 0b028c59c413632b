-- ===== src/Yugabyte/Atomic.antt =====
-- The transactions of YugabyteDB, all or nothing.
use taobench.Prelude.{List, Bool, false, ◌≡◌}
use taobench.Db.{TimestampValue, DbOperation}
use taobench.Pq.Connection.{Connection}
use taobench.Pq.Transactions.{run_operations, execute_transaction_prepared}
use taobench.Pq.Works.{IsTransactional, HaveKeys, EndsAtomically, with_work-atomic}
use taobench.Pq.Inside.{run_operations-Inside}
use taobench.Yugabyte.Statements.{prepared}
use taobench.Yugabyte.Driver.{value_of, execute_transaction}

-- Over a connection whose works behave as PostgreSQL and libpqxx document them, a transaction over
-- well-formed keys returns, and the connection is in no work any more. Either every operation ran, and
-- their whole effect is committed, with `kOK`, or the commit threw, with `kError`, and all or nothing
-- of the effect is there; or the transaction was not started or ended early, and the committed content
-- is what it was.
pub transaction_atomic :
    (conn : Connection) (works : IsTransactional conn) (ops : List DbOperation)
    (buffer : List TimestampValue) (read_only : Bool) (s : conn.State)
    → HaveKeys ops
    → works.in_work s ≡ false
    → EndsAtomically conn works
        (run_operations conn prepared value_of ops buffer)
        s
        (execute_transaction conn ops buffer read_only s)
unfolding execute_transaction execute_transaction_prepared
transaction_atomic conn works ops buffer read_only s keys idle =
    with_work-atomic conn works (run_operations conn prepared value_of ops buffer) buffer s idle
      (λ s' inside.
        run_operations-Inside conn works prepared value_of (works.committed s) ops buffer s' keys
          inside)
