-- ===== src/Yugabyte/Contract.antt =====
-- The driver for YugabyteDB keeps the contract that the wrapper asks of a driver.
use taobench.Prelude.{
  pos, List, [], ◌∷◌, ◌++◌, true, not, is_empty, Option, some, none, ◌≡◌, ◌≢◌, ◌⊎◌, inl, inr, refl,
  ◌∙◌,
}
use taobench.Db.{
  DataTable, Field, TimestampValue, DbOperation, Operation, Status, k_ok, k_error, returns, Outcome,
}
use taobench.Database.{Database, IsKey}
use taobench.Sql.{ResultRow}
use taobench.Cache.Client.{Memcached}
use taobench.Pq.Connection.{Connection}
use taobench.Pq.KeyedRows.{KeyedRows}
use taobench.Pq.Transactions.{run_operations, execute_transaction_prepared}
use taobench.Yugabyte.Statements.{prepared}
use taobench.Yugabyte.Driver.{
  value_of, status_of, first_row, append_value, read_result, read, update, insert, delete,
  execute_by, execute, execute_transaction, batch_insert, batch_read,
}
use taobench.Yugabyte.Rows.{
  values, SameRows, OwnRow, do_update-Writes, do_insert-Writes, do_delete-Writes, do_read-ReadsRow,
}
use taobench.Yugabyte.Transactions.{IsKey-values, run_operations-WritesAll, with_work-WorkEnds}
use taobench.Wrapper.Contract.{MemcachedLaws, DatabaseLaws}
use taobench.Wrapper.WriteTransactions.{WritesOwnKeys}

-- The driver as an implementation of the interface.
abbrev pub yugabyte : Connection → Database
yugabyte conn = record {
  State = conn.State;
  execute = execute conn;
  execute_transaction = execute_transaction conn;
  batch_insert = batch_insert conn;
  batch_read = λ t lo hi n buffer s. batch_read conn t lo hi (pos n) buffer s;
}

nonempty : {t : DataTable} {k : List Field} → IsKey t k → not (is_empty k) ≡ true
nonempty (IsKey.edge a b c) = refl
nonempty (IsKey.object i) = refl

module _ (conn : Connection) (rows : KeyedRows conn) where
  open rows use {row}

  abbrev ReadOne :
      TimestampValue
      → List TimestampValue
      → conn.State
      → Outcome (Status × List TimestampValue × conn.State)
      → Type 0
  ReadOne tv buffer s r =
      (status : Status) × (buffer' : List TimestampValue) × (s' : conn.State) × (r
        ≡ returns (status, buffer', s'))
      × SameRows conn rows s s'
      × (status ≡ k_ok → buffer' ≡ buffer ++ tv ∷ [])

  read_result-ReadOne :
      (found : Option (List ResultRow)) (tv : TimestampValue) (buffer : List TimestampValue)
      (s s' : conn.State)
      → (found ≡ none) ⊎ (found ≡ some ((some tv.timestamp, some tv.value) ∷ []))
      → SameRows conn rows s s'
      → ReadOne tv buffer s (read_result conn found buffer s')
  unfolding read_result first_row value_of append_value
  read_result-ReadOne found tv buffer s s' (inl e) same =
      (k_error, buffer, s', rw e refl, same, (λ z. absurd (cc)))
  read_result-ReadOne found tv buffer s s' (inr e) same =
      (k_ok, buffer ++ tv ∷ [], s', rw e refl, same, (λ z. refl))

  execute_by-ReadOne :
      (op : DbOperation) (buffer : List TimestampValue) (s : conn.State) (tv : TimestampValue)
      → IsKey op.table op.key
      → row s op.table (values op.key) ≡ some tv
      → ReadOne tv buffer s (execute_by conn Operation.read op buffer s)
  unfolding execute_by read
  execute_by-ReadOne op buffer s tv key here =
      let (q, done, found, same, base) = do_read-ReadsRow conn rows op.table op.key tv s key here in
      rw done (read_result-ReadOne q.0 tv buffer s q.1 found same)

  abbrev WriteOne :
      DbOperation
      → List TimestampValue
      → conn.State
      → Outcome (Status × List TimestampValue × conn.State)
      → Type 0
  WriteOne op buffer s r =
      (status : Status) × (s' : conn.State) × (r ≡ returns (status, buffer, s'))
      × OwnRow conn rows op.table (values op.key) s s'

  execute_by-WriteOne :
      (o : Operation) (op : DbOperation) (buffer : List TimestampValue) (s : conn.State)
      → IsKey op.table op.key
      → o ≢ Operation.read
      → WriteOne op buffer s (execute_by conn o op buffer s)
  unfolding execute_by insert update delete
  execute_by-WriteOne Operation.read op buffer s key nr = absurd (nr refl)
  execute_by-WriteOne Operation.insert op buffer s key nr =
      let (q, done, own, base) =
        do_insert-Writes conn rows op.table op.key op.time_and_value s key in
      (status_of q.0, q.1, rw (nonempty key, done) refl, own)
  execute_by-WriteOne Operation.update op buffer s key nr =
      let (q, done, own, base) =
        do_update-Writes conn rows op.table op.key op.time_and_value s key in
      (status_of q.0, q.1, rw done refl, own)
  execute_by-WriteOne Operation.delete op buffer s key nr =
      let (q, done, own, base) =
        do_delete-Writes conn rows op.table op.key op.time_and_value s key in
      (status_of q.0, q.1, rw done refl, own)
  execute_by-WriteOne Operation.scan op buffer s key nr = (_, s, refl, (λ u l. inr refl))
  execute_by-WriteOne Operation.read_modify_write op buffer s key nr =
      (_, s, refl, (λ u l. inr refl))
  execute_by-WriteOne Operation.max_op_type op buffer s key nr = (_, s, refl, (λ u l. inr refl))
  execute_by-WriteOne _ op buffer s key nr = (_, s, refl, (λ u l. inr refl))

  pub execute-ReadOne :
      (op : DbOperation) (buffer : List TimestampValue) (s : conn.State) (tv : TimestampValue)
      → IsKey op.table op.key
      → op.operation ≡ Operation.read
      → row s op.table (values op.key) ≡ some tv
      → ReadOne tv buffer s (execute conn op buffer s)
  unfolding execute
  execute-ReadOne op buffer s tv key r here = rw r (execute_by-ReadOne op buffer s tv key here)

  abbrev WritesKey : DbOperation → List TimestampValue → conn.State → Type 0
  WritesKey op buffer s =
      (status : Status) × (s' : conn.State) × (execute conn op buffer s
        ≡ returns (status, buffer, s'))
      × ((t : DataTable) (k : List Field)
          → IsKey t k
          → ((t ≡ op.table) × (k ≡ op.key)) ⊎ (row s' t (values k) ≡ row s t (values k)))

  pub execute-WritesKey :
      (op : DbOperation) (buffer : List TimestampValue) (s : conn.State)
      → IsKey op.table op.key
      → op.operation ≢ Operation.read
      → WritesKey op buffer s
  unfolding execute
  execute-WritesKey op buffer s key nr =
      let (status, s', done, own) = execute_by-WriteOne op.operation op buffer s key nr in
      (
        status,
        s',
        done,
        (λ t k is. elim (own t (values k)) [
          | inl (tables, same) ↦ inl (tables, IsKey-values is key tables same)
          | inr same ↦ inr same
        ]),
      )

  -- The driver's operations keep the contract, for every key in one of the two formats.
  unfoldable pub yugabyte_laws : DatabaseLaws (yugabyte conn)
  yugabyte_laws = record {
    Accepts = λ op. IsKey op.table op.key;
    lookup = λ s t k. row s t (values k);
    in_range = λ s t k tv here. rows.in_range s t (values k) tv here;
    reads = λ op buffer s tv key r here.
        (let (status, buffer', s', done, same, answer) =
            execute-ReadOne op buffer s tv key r here in
          (status, buffer', s', done, (λ t k. same t (values k)), answer));
    writes = λ op buffer s key nr. execute-WritesKey op buffer s key nr;
  }

  -- Its write transactions change their own keys at most.
  pub yugabyte-WritesOwnKeys :
      {memc : Memcached} (ml : MemcachedLaws memc) → WritesOwnKeys ml yugabyte_laws
  unfolding yugabyte_laws execute_transaction execute_transaction_prepared
  yugabyte-WritesOwnKeys ml = record {
    transacts = λ ops buffer s ok.
        (let s₀ = (conn.start_work s).1 in
          let (stop, s₁, ran, ne, among, base) =
            run_operations-WritesAll conn rows ops buffer s₀ ok in
          let (status, out, s', done, kept, buffers, success) =
            with_work-WorkEnds conn rows (run_operations conn prepared value_of ops buffer) buffer
              buffer s s₁ stop ran ne base in
          let same : out ≡ buffer = elim buffers [ inl e ↦ e | inr e ↦ e ] in
          (
            status,
            s',
            done ∙ rw same refl,
            (λ t k is. elim kept [
              | inl old ↦ inr (old t (values k))
              | inr new ↦ (elim (among t k is) [
                | inl on ↦ inl on
                | inr before ↦ inr (new t (values k) ∙ before ∙ (rows.starts s t (values k)).0)
              ])
            ]),
          ));
  }
