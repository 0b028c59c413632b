-- ===== src/Tests/Workloads.antt =====
-- The theorems about the workload at concrete inputs.
use taobench.Prelude.{
  ℕ, zero, suc, ◌*◌, ◌||◌, pos, Bytes, codes, eq_bytes, List, [], ◌∷◌, some, Bool, true, false, not,
  if◌then◌else◌, ◌≡◌, refl, arith,
}
use taobench.Db.{
  TimestampValue, Status, k_ok, k_error, k_contention_error, returns, faults, Fault, Edge, EdgeType,
}
use taobench.Database.{Database}
use taobench.Workload.{Source, Workload, element, find_shard}
use taobench.Workload.Retries.{Session, is_ok, initial_limit, do_request, dispatch_request}
use taobench.Workload.Backoff.{Contends, retries_end, long_contention_faults}

-- A source that draws the second entry and the first in turn.
abbrev turns : Source
turns = record {
  State = Bool;
  draw = λ line b. (if b then 1 else 0, not b);
  below = λ n b. (0, b);
  byte = λ b. (7, b);
  now = λ b. (1700000000000, b);
}

abbrev pub one_edge : Edge
one_edge = record { primary_key = pos 5; remote_key = pos 6; type = EdgeType.other }

abbrev pub types_of : Bool → Bool → List Bytes
types_of true of_edges = codes "unique" ∷ codes "other" ∷ []
types_of false true = codes "edge_add" ∷ codes "obj_update" ∷ []
types_of false false = codes "edge_get" ∷ codes "obj_get" ∷ []

-- Only the first shard has an edge.
abbrev pub two_types : Workload
two_types = record {
  types = λ line. types_of (eq_bytes line (codes "edge_types")) (
      eq_bytes line (codes "write_txn_operation_types")
      || eq_bytes line (codes "write_operation_types"));
  vals = λ line. pos 2 ∷ pos 3 ∷ [];
  shard_to_edges = (pos 0, one_edge ∷ []) ∷ [];
}

-- A source that always draws the first entry, and a database that ends some requests in a contention
-- error.
abbrev pub steady : Source
steady = record {
  State = Unit {0};
  draw = λ line s. (0, s);
  below = λ n s. (0, s);
  byte = λ s. (7, s);
  now = λ s. (1700000000000, s);
}

abbrev answer : ℕ → Status × List TimestampValue × ℕ
answer zero = (k_ok, [], 0)
answer (suc n) = (k_contention_error, [], n)

abbrev contended : Database
contended = record {
  State = ℕ;
  execute = λ op buffer n. returns (answer n);
  execute_transaction = λ ops buffer ro n. returns (answer n);
  batch_insert = λ t ks vs n. returns (k_error, n);
  batch_read = λ t lo hi m buffer n. returns (k_error, buffer, n);
}

abbrev after : ℕ → ℕ → ℕ
after zero n = n
after (suc k) n = suc (after k n)

abbrev session : ℕ → Session steady two_types contended
session n = ((tt, 0), n)

contends :
    (k limit n : ℕ)
    → Contends steady two_types contended 1 k limit (session (after k n)) (session n)
unfolding dispatch_request find_shard element
contends zero limit n = Contends.done
contends (suc k) limit n = Contends.again tt 0 (after k n) refl (contends k (limit * 2) n)

retries_end_example :
    do_request steady two_types contended 5 1 (session 3) ≡ returns (some (true, session 0))
unfolding dispatch_request find_shard element is_ok
retries_end_example =
    retries_end steady two_types contended 1 3 5 (session 3) (session 0) (session 0) k_ok
      (contends 3 initial_limit 0) (omega arith) (omega arith) refl (λ e. absurd (cc))

long_contention_faults_example :
    do_request steady two_types contended 30 1 (session 22) ≡ faults Fault.out_of_range
unfolding dispatch_request find_shard element
long_contention_faults_example =
    long_contention_faults steady two_types contended 1 30 (session 22) (session 1) (session 0)
      (contends 21 initial_limit 1) (omega arith) refl
