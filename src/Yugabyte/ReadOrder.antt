-- ===== src/Yugabyte/ReadOrder.antt =====
-- The read transactions of the driver for YugabyteDB give the values in the order of the operations.
use taobench.Prelude.{
  List, [], ◌∷◌, ◌++◌, Option, some, none, ◌≡◌, ◌≢◌, ◌⊎◌, inl, inr, refl, ◌∙◌, append-nil,
  append_assoc,
}
use taobench.Db.{TimestampValue, DbOperation, Operation, Status, k_ok, k_error, returns, Outcome}
use taobench.Database.{IsKey}
use taobench.Sql.{ResultRow}
use taobench.Cache.Client.{Memcached}
use taobench.Pq.Connection.{Connection}
use taobench.Pq.KeyedRows.{KeyedRows}
use taobench.Pq.Transactions.{
  append_rows, after_read, run_operation, run_operations, execute_transaction_prepared,
}
use taobench.Yugabyte.Statements.{prepared}
use taobench.Yugabyte.Driver.{value_of, execute_transaction}
use taobench.Yugabyte.Rows.{values, SameRows, SameBegun, do_read-ReadsRow}
use taobench.Yugabyte.Transactions.{with_work-WorkEnds}
use taobench.Yugabyte.Contract.{yugabyte_laws}
use taobench.Wrapper.Contract.{MemcachedLaws}
use taobench.Wrapper.Transactions.{Reads, Values}
use taobench.Wrapper.ReadTransactions.{ReadsInOrder}

module _ (conn : Connection) (rows : KeyedRows conn) where
  open rows use {row}

  abbrev ReadStep :
      TimestampValue
      → List TimestampValue
      → conn.State
      → Outcome (Option Status × List TimestampValue × conn.State)
      → Type 0
  ReadStep tv buffer s r =
      (s' : conn.State) × ((r ≡ returns (none, buffer ++ tv ∷ [], s'))
        ⊎ (r ≡ returns (some k_error, buffer, s')))
      × SameRows conn rows s s'
      × SameBegun conn rows s s'

  after_read-some :
      (found : Option (List ResultRow)) (tv : TimestampValue) (buffer : List TimestampValue)
      (s : conn.State)
      → found ≡ some ((some tv.timestamp, some tv.value) ∷ [])
      → after_read conn prepared value_of found buffer s ≡ (none, buffer ++ tv ∷ [], s)
  unfolding after_read append_rows value_of
  after_read-some found tv buffer s e = rw e refl

  after_read-none :
      (found : Option (List ResultRow)) (buffer : List TimestampValue) (s : conn.State)
      → found ≡ none
      → after_read conn prepared value_of found buffer s ≡ (some k_error, buffer, s)
  unfolding after_read
  after_read-none found buffer s e = rw e refl

  run_read-ReadStep :
      (op : DbOperation) (tv : TimestampValue) (buffer : List TimestampValue) (s : conn.State)
      → IsKey op.table op.key
      → row s op.table (values op.key) ≡ some tv
      → ReadStep tv buffer s (run_operation conn prepared value_of Operation.read op buffer s)
  unfolding run_operation
  run_read-ReadStep op tv buffer s key here =
      let (q, done, found, same, base) = do_read-ReadsRow conn rows op.table op.key tv s key here in
      elim found [
        | inl e ↦ (q.1, inr (rw (done, after_read-none q.0 buffer q.1 e) refl), same, base)
        | inr e ↦ (q.1, inl (rw (done, after_read-some q.0 tv buffer q.1 e) refl), same, base)
      ]

  run_operation-ReadStep :
      (o : Operation) (op : DbOperation) (tv : TimestampValue) (buffer : List TimestampValue)
      (s : conn.State)
      → o ≡ Operation.read
      → IsKey op.table op.key
      → row s op.table (values op.key) ≡ some tv
      → ReadStep tv buffer s (run_operation conn prepared value_of o op buffer s)
  run_operation-ReadStep o op tv buffer s r key here =
      rw r (run_read-ReadStep op tv buffer s key here)

  module _ {memc : Memcached} (ml : MemcachedLaws memc) where
    -- From the rows of `s₀` the reads give their values, or one of them throws.
    abbrev ReadsAll :
        conn.State
        → List DbOperation
        → List TimestampValue
        → List TimestampValue
        → conn.State
        → Type 0
    ReadsAll s₀ ops tvs buffer s =
        (stop : Option Status) × (buffer' : List TimestampValue) × (s' : conn.State)
        × (run_operations conn prepared value_of ops buffer s ≡ returns (stop, buffer', s'))
        × (stop ≢ some k_ok)
        × (stop ≡ none → buffer' ≡ buffer ++ tvs)
        × SameRows conn rows s₀ s'
        × SameBegun conn rows s s'

    run_operations-ReadsAll :
        (s₀ : conn.State) (ops : List DbOperation) (tvs buffer : List TimestampValue)
        (s : conn.State)
        → Reads ml (yugabyte_laws conn rows) ops
        → Values ml (yugabyte_laws conn rows) s₀ ops tvs
        → SameRows conn rows s₀ s
        → ReadsAll s₀ ops tvs buffer s
    unfolding run_operations yugabyte_laws
    run_operations-ReadsAll s₀ [] [] buffer s ok held same = (
      none,
      buffer,
      s,
      refl,
      (λ e. absurd (cc)),
      (λ _. rw (append-nil buffer) refl),
      same,
      (λ u l. refl),
    )
    run_operations-ReadsAll s₀ [] (tv ∷ tvs) buffer s ok held same = absurd held
    run_operations-ReadsAll s₀ (op ∷ ops) [] buffer s ok held same = absurd held
    run_operations-ReadsAll s₀ (op ∷ ops) (tv ∷ tvs) buffer s ok held same =
        let (s', how, kept, base) =
          run_operation-ReadStep op.operation op tv buffer s ok.0.1 ok.0.2
            (same op.table (values op.key) ∙ held.0.0) in
        elim how [
          | inr threw ↦ (
            some k_error,
            buffer,
            s',
            rw threw refl,
            (λ e. absurd (cc)),
            (λ e. absurd (cc)),
            (λ u l. kept u l ∙ same u l),
            base,
          )
          | inl gave ↦
              (let (stop, buffer', s'', ran, ne, full, same', base') =
                  run_operations-ReadsAll s₀ ops tvs (buffer ++ tv ∷ []) s' ok.1 held.1
                    (λ u l. kept u l ∙ same u l) in
                (
                  stop,
                  buffer',
                  s'',
                  rw gave ran,
                  ne,
                  (λ e. full e ∙ append_assoc buffer (tv ∷ []) tvs),
                  same',
                  (λ u l. base' u l ∙ base u l),
                ))
        ]

    -- A success gives the values of the keys in their order, and no value changes.
    pub yugabyte-ReadsInOrder : ReadsInOrder ml (yugabyte_laws conn rows)
    unfolding yugabyte_laws execute_transaction execute_transaction_prepared
    yugabyte-ReadsInOrder = record {
      transacts = λ ops tvs s ok held.
          (let s₀ = (conn.start_work s).1 in
            let (stop, buffer', s₁, ran, ne, full, same, base) =
              run_operations-ReadsAll s ops tvs [] s₀ ok held (λ u l. (rows.starts s u l).0) in
            let (status, out, s', done, kept, buffers, success) =
              with_work-WorkEnds conn rows (run_operations conn prepared value_of ops []) [] buffer'
                s s₁ stop ran ne base in
            (
              status,
              out,
              s',
              done,
              (λ t k. (elim kept [
                | inl old ↦ old t (values k)
                | inr new ↦ new t (values k) ∙ same t (values k)
              ])),
              (λ e. (success e).1 ∙ full (success e).0),
            ));
    }
