-- ===== src/Yugabyte/Transactions.antt =====
-- What a transaction of the driver for YugabyteDB makes of the rows.
use taobench.Prelude.{
  ℤ, List, [], ◌∷◌, All, Bool-cases, Option, some, none, ◌≡◌, ◌≢◌, ◌⊎◌, inl, inr, refl, ◌∙◌,
}
use taobench.Db.{
  DataTable, Field, TimestampValue, DbOperation, Operation, Status, k_ok, k_error, returns, Outcome,
}
use taobench.Database.{IsKey}
use taobench.Sql.{ResultRow}
use taobench.Pq.Connection.{Connection}
use taobench.Pq.KeyedRows.{KeyedRows}
use taobench.Pq.Transactions.{after_write, run_operation, run_operations, finish, with_work}
use taobench.Yugabyte.Statements.{prepared}
use taobench.Yugabyte.Driver.{value_of}
use taobench.Yugabyte.Rows.{
  values, SameRows, SameBegun, OwnRow, do_update-Writes, do_insert-Writes, do_delete-Writes,
}
use taobench.Wrapper.WriteTransactions.{IsAmong}

-- A key is known by its table and its values.
pub IsKey-values :
    {t u : DataTable} {k l : List Field}
    → IsKey t k
    → IsKey u l
    → t ≡ u
    → values k ≡ values l
    → k ≡ l
IsKey-values (IsKey.edge a b c) (IsKey.edge a' b' c') e h = cc
IsKey-values (IsKey.edge a b c) (IsKey.object i) e h = absurd (cc)
IsKey-values (IsKey.object i) (IsKey.edge a b c) e h = absurd (cc)
IsKey-values (IsKey.object i) (IsKey.object j) e h = cc

module _ (conn : Connection) (rows : KeyedRows conn) where
  open rows use {row, begun}

  -- Of the well-formed keys, those of the operations change at most.
  abbrev pub AmongRows : List DbOperation → conn.State → conn.State → Type 0
  AmongRows ops s s' =
      (u : DataTable) (l : List Field)
      → IsKey u l
      → IsAmong u l ops ⊎ (row s' u (values l) ≡ row s u (values l))

  abbrev WritesOne :
      DbOperation
      → List TimestampValue
      → conn.State
      → Outcome (Option Status × List TimestampValue × conn.State)
      → Type 0
  WritesOne op buffer s r =
      (stop : Option Status) × (s' : conn.State) × (r ≡ returns (stop, buffer, s'))
      × (stop ≢ some k_ok)
      × OwnRow conn rows op.table (values op.key) s s'
      × SameBegun conn rows s s'

  after_write-stop :
      (found : Option (List ResultRow)) (buffer : List TimestampValue) (s : conn.State)
      → (stop : Option Status) × (after_write conn prepared value_of found buffer s
          ≡ (stop, buffer, s))
        × (stop ≢ some k_ok)
  unfolding after_write
  after_write-stop none buffer s = (some k_error, refl, (λ e. absurd (cc)))
  after_write-stop (some found) buffer s = (none, refl, (λ e. absurd (cc)))

  run_operation-WritesOne :
      (o : Operation) (op : DbOperation) (buffer : List TimestampValue) (s : conn.State)
      → IsKey op.table op.key
      → o ≢ Operation.read
      → WritesOne op buffer s (run_operation conn prepared value_of o op buffer s)
  unfolding run_operation
  run_operation-WritesOne Operation.read op buffer s key nr = absurd (nr refl)
  run_operation-WritesOne Operation.insert op buffer s key nr =
      let (q, done, own, base) =
        do_insert-Writes conn rows op.table op.key op.time_and_value s key in
      let (stop, after, ne) = after_write-stop q.0 buffer q.1 in
      (stop, q.1, rw (done, after) refl, ne, own, base)
  run_operation-WritesOne Operation.update op buffer s key nr =
      let (q, done, own, base) =
        do_update-Writes conn rows op.table op.key op.time_and_value s key in
      let (stop, after, ne) = after_write-stop q.0 buffer q.1 in
      (stop, q.1, rw (done, after) refl, ne, own, base)
  run_operation-WritesOne Operation.delete op buffer s key nr =
      let (q, done, own, base) =
        do_delete-Writes conn rows op.table op.key op.time_and_value s key in
      let (stop, after, ne) = after_write-stop q.0 buffer q.1 in
      (stop, q.1, rw (done, after) refl, ne, own, base)
  run_operation-WritesOne Operation.scan op buffer s key nr =
      (_, s, refl, (λ e. absurd (cc)), (λ u l. inr refl), (λ u l. refl))
  run_operation-WritesOne Operation.read_modify_write op buffer s key nr =
      (_, s, refl, (λ e. absurd (cc)), (λ u l. inr refl), (λ u l. refl))
  run_operation-WritesOne Operation.max_op_type op buffer s key nr =
      (_, s, refl, (λ e. absurd (cc)), (λ u l. inr refl), (λ u l. refl))
  run_operation-WritesOne _ op buffer s key nr =
      (_, s, refl, (λ e. absurd (cc)), (λ u l. inr refl), (λ u l. refl))

  abbrev WritesAll : List DbOperation → List TimestampValue → conn.State → Type 0
  WritesAll ops buffer s =
      (stop : Option Status) × (s' : conn.State) × (run_operations conn prepared value_of ops buffer
          s
        ≡ returns (stop, buffer, s'))
      × (stop ≢ some k_ok)
      × AmongRows ops s s'
      × SameBegun conn rows s s'

  own-AmongRows :
      (op : DbOperation) (ops : List DbOperation) (s s' : conn.State)
      → IsKey op.table op.key
      → OwnRow conn rows op.table (values op.key) s s'
      → AmongRows (op ∷ ops) s s'
  own-AmongRows op ops s s' key own u l is = elim (own u (values l)) [
    | inl (tables, same) ↦ inl (inl (tables, IsKey-values is key tables same))
    | inr same ↦ inr same
  ]

  AmongRows-cons :
      (op : DbOperation) (ops : List DbOperation) (s s' s'' : conn.State)
      → AmongRows (op ∷ ops) s s'
      → AmongRows ops s' s''
      → AmongRows (op ∷ ops) s s''
  AmongRows-cons op ops s s' s'' one rest u l is = elim (rest u l is) [
    | inl among ↦ inl (inr among)
    | inr same ↦ (elim (one u l is) [ inl among ↦ inl among | inr before ↦ inr (same ∙ before) ])
  ]

  run_operations-next :
      (op : DbOperation) (ops : List DbOperation) (buffer : List TimestampValue) (s s' : conn.State)
      (stop : Option Status)
      → run_operation conn prepared value_of op.operation op buffer s ≡ returns (stop, buffer, s')
      → stop ≢ some k_ok
      → AmongRows (op ∷ ops) s s'
      → SameBegun conn rows s s'
      → WritesAll ops buffer s'
      → WritesAll (op ∷ ops) buffer s
  unfolding run_operations
  run_operations-next op ops buffer s s' (some status) done ne one base rest =
      (some status, s', rw done refl, ne, one, base)
  run_operations-next op ops buffer s s' none done ne one base (stop, s'', ran, ne', among, base') =
      (
        stop,
        s'',
        rw done ran,
        ne',
        AmongRows-cons op ops s s' s'' one among,
        (λ u l. base' u l ∙ base u l),
      )

  pub run_operations-WritesAll :
      (ops : List DbOperation) (buffer : List TimestampValue) (s : conn.State)
      → All (λ op. IsKey op.table op.key × (op.operation ≢ Operation.read)) ops
      → WritesAll ops buffer s
  unfolding run_operations
  run_operations-WritesAll [] buffer s ok =
      (none, s, refl, (λ e. absurd (cc)), (λ u l is. inr refl), (λ u l. refl))
  run_operations-WritesAll (op ∷ ops) buffer s ok =
      let (stop, s', done, ne, own, base) =
        run_operation-WritesOne op.operation op buffer s ok.0.0 ok.0.1 in
      run_operations-next op ops buffer s s' stop done ne (own-AmongRows op ops s s' ok.0.0 own)
        base (run_operations-WritesAll ops buffer s' ok.1)

  -- How a work ends: with the rows of its beginning, or with those that its body has made. Only a
  -- body that ran to its end gives a success.
  abbrev WorkEnds :
      List TimestampValue
      → List TimestampValue
      → conn.State
      → conn.State
      → Option Status
      → Outcome (Status × List TimestampValue × conn.State)
      → Type 0
  WorkEnds buffer buffer' s s₁ stop r =
      (status : Status) × (out : List TimestampValue) × (s' : conn.State) × (r
        ≡ returns (status, out, s'))
      × (SameRows conn rows s s' ⊎ SameRows conn rows s₁ s')
      × ((out ≡ buffer) ⊎ (out ≡ buffer'))
      × (status ≡ k_ok → (stop ≡ none) × (out ≡ buffer'))

  finish-WorkEnds :
      (buffer buffer' : List TimestampValue) (s s₁ : conn.State) (stop : Option Status)
      → stop ≢ some k_ok
      → ((u : DataTable) (l : List ℤ) → begun s₁ u l ≡ row s u l)
      → WorkEnds buffer buffer' s s₁ stop (returns (finish conn stop buffer' s₁))
  unfolding finish
  finish-WorkEnds buffer buffer' s s₁ (some status) ne base = (
    status,
    buffer',
    conn.abort s₁,
    refl,
    inl (λ u l. rows.aborts s₁ u l ∙ base u l),
    inr refl,
    (λ e. absurd (ne (rw e refl))),
  )
  finish-WorkEnds buffer buffer' s s₁ none ne base =
      let kept : SameRows conn rows s (conn.commit s₁).1
          ⊎ SameRows conn rows s₁ (conn.commit s₁).1 =
        (elim (rows.commits s₁) [
          | inl new ↦ inr new
          | inr old ↦ inl (λ u l. old u l ∙ base u l)
        ]) in
      elim (Bool-cases (conn.commit s₁).0) [
        | inl done ↦
            (k_ok, buffer', (conn.commit s₁).1, rw done refl, kept, inr refl, (λ e. (refl, refl)))
        | inr failed ↦ (
          k_error,
          buffer',
          (conn.commit s₁).1,
          rw failed refl,
          kept,
          inr refl,
          (λ e. absurd (cc)),
        )
      ]

  pub with_work-WorkEnds :
      (body : conn.State → Outcome (Option Status × List TimestampValue × conn.State))
      (buffer buffer' : List TimestampValue) (s s₁ : conn.State) (stop : Option Status)
      → body (conn.start_work s).1 ≡ returns (stop, buffer', s₁)
      → stop ≢ some k_ok
      → SameBegun conn rows (conn.start_work s).1 s₁
      → WorkEnds buffer buffer' s s₁ stop (with_work conn body buffer s)
  unfolding with_work
  with_work-WorkEnds body buffer buffer' s s₁ stop ran ne base =
      elim (Bool-cases (conn.start_work s).0) [
        | inl started ↦
            rw (started, ran)
              (finish-WorkEnds buffer buffer' s s₁ stop ne
                (λ u l. base u l ∙ (rows.starts s u l).1))
        | inr failed ↦ (
          k_error,
          buffer,
          (conn.start_work s).1,
          rw failed refl,
          inl (λ u l. (rows.starts s u l).0),
          inl refl,
          (λ e. absurd (cc)),
        )
      ]
