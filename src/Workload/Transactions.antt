-- ===== src/Workload/Transactions.antt =====
-- The transactions that the workload makes up are well formed.
use taobench.Prelude.{
  ℕ, zero, suc, ◌≤◌, length, All, Option, some, Bool, true, ◌≡◌, ◌≢◌, refl, ap, arith,
}
use taobench.Db.{DbOperation, Operation, Outcome, returns, Edge}
use taobench.Database.{IsKey}
use taobench.Workload.{Source, Workload, Run, operation_for, no_value, letters}
use taobench.Workload.Requests.{IsLoaded}
use taobench.MySql.Atomic.{is_supported}

-- A read of a loaded edge or of its first object.
abbrev pub IsLoadedRead : Workload → DbOperation → Type 0
IsLoadedRead w op =
    (is_edge : Bool) × (e : Edge) × IsLoaded w e
    × (op ≡ operation_for is_edge e no_value Operation.read)

-- A letter from a to z.
abbrev pub IsLetter : ℕ → Type 0
IsLetter c = (b'a' ≤ c) × (c ≤ b'z')

-- A well-formed write with letters for its value.
abbrev pub IsWrite : DbOperation → Type 0
IsWrite op =
    IsKey op.table op.key
    × (is_supported op.operation ≡ true)
    × (op.operation ≢ Operation.read)
    × All IsLetter op.time_and_value.value
    × (length op.time_and_value.value ≡ 150)

abbrev IsSupportedWrite : Operation → Type 0
IsSupportedWrite o = (is_supported o ≡ true) × (o ≢ Operation.read)

module _ (source : Source) (w : Workload) where
  abbrev Made : (DbOperation → Type 0) → Outcome (Option (DbOperation × Run source w)) → Type 0
  Made P x = (op : DbOperation) × (r : Run source w) × (x ≡ returns (some (op, r))) × P op

  pub letters-AreLetters :
      (k : ℕ) (s : source.State)
      → All IsLetter (letters source w k s).0 × (length (letters source w k s).0 ≡ k)
  unfolding letters
  letters-AreLetters zero s = (tt, refl)
  letters-AreLetters (suc k) s =
      let (h, size) = letters-AreLetters k (source.byte s).1 in
      (((omega arith, omega arith), h), ap suc size)
