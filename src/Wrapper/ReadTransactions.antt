-- ===== src/Wrapper/ReadTransactions.antt =====
-- `DBWrapper::ExecuteTransaction`: a read transaction over keys that the database holds.
use taobench.Prelude.{ℕ, ==_iff, List, [], ◌∷◌, ◌++◌, true, ◌≡◌, refl, ◌∙◌}
use taobench.Db.{TimestampValue, DbOperation, Operation, Status, k_ok, returns}
use taobench.Database.{Database}
use taobench.Cache.Client.{Memcached}
use taobench.Wrapper.{Wrapper, is_ok, fill_if_ok, transaction_by, execute_transaction}
use taobench.Wrapper.Contract.{MemcachedLaws, DatabaseLaws, Agree, IsReady}
use taobench.Wrapper.Coherence.{Unchanged-Agree, Unchanged}
use taobench.Wrapper.Execute.{reported, IsReady-after}
use taobench.Wrapper.Transactions.{
  Reads, Values, Marked, look_up_lem, fill_lem, Marked-Reads, Marked-Values, length-Marked,
}

module _ {memc : Memcached} (ml : MemcachedLaws memc) {db : Database} (dl : DatabaseLaws db) where
  -- A driver's read transactions over keys that the database holds, as the wrapper takes them to be: a
  -- success gives their values in the order of the operations, and no value changes. YugabyteDB's are
  -- like this (Yugabyte/Contract); Spanner's and CockroachDB's batched ones are not.
  pub record ReadsInOrder : Type 0 where
    pub transacts :
        (ops : List DbOperation) (tvs : List TimestampValue) (s : db.State)
        → Reads ml dl ops
        → Values ml dl s ops tvs
        → (status : Status) × (rows : List TimestampValue) × (s' : db.State)
          × (db.execute_transaction ops [] true s ≡ returns (status, rows, s'))
          × Unchanged ml dl s s'
          × (status ≡ k_ok → rows ≡ tvs)

  filled :
      (status : Status) (d d' : db.State) {ops ms : List DbOperation}
      {tvs rsl mtvs rows : List TimestampValue}
      → Marked ml dl d ops tvs rsl ms mtvs
      → (status ≡ k_ok → rows ≡ mtvs)
      → (buffer : List TimestampValue) (c : memc.State) → Agree ml dl c d
      → (buffer' : List TimestampValue) × (c' : memc.State) × (fill_if_ok memc db
            (is_ok status)
            ops
            rsl
            rows
            buffer
            c
          ≡ returns (buffer', c'))
        × Agree ml dl c' d
        × (status ≡ k_ok → buffer' ≡ buffer ++ tvs)
  unfolding fill_if_ok
  filled k_ok d d' {tvs = tvs} marked same buffer c agree =
      let (c', done, still) = fill_lem ml dl d marked buffer c agree in
      (buffer ++ tvs, c', rw (same refl) done, still, (λ _. refl))
  filled _ d d' marked same buffer c agree = (buffer, c, refl, agree, (λ e. absurd (cc)))

  -- Against a memcached and a driver with their documented behaviour, from a state that is ready, a
  -- read transaction with an operation or more, over keys that the database holds, none of them at
  -- timestamp -1, returns; a success appends the database's values in the order of the operations,
  -- however hits and misses mix, the cache still agrees with the database and no value has changed.
  pub read_transaction :
      ReadsInOrder
      → (op : DbOperation) (ops : List DbOperation) (tvs buffer : List TimestampValue) (elapsed : ℕ)
        (w : Wrapper memc db)
      → Reads ml dl (op ∷ ops)
      → Values ml dl w.store (op ∷ ops) tvs
      → IsReady ml dl w
      → (status : Status) × (buffer' : List TimestampValue) × (w' : Wrapper memc db)
        × (execute_transaction memc db (op ∷ ops) buffer true elapsed w
            ≡ returns (status, buffer', w'))
        × IsReady ml dl w'
        × Unchanged ml dl w.store w'.store
        × (status ≡ k_ok → buffer' ≡ buffer ++ tvs)
  unfolding execute_transaction transaction_by
  read_transaction law op ops tvs buffer elapsed w ok held ready =
      let (rsl, ms, mtvs, c, m, looked, marked, agree, entries) =
        look_up_lem ml dl w.store (op ∷ ops) tvs [] [] w.cache w.measurements ok held ready.agree in
      let (status, rows, d, done, same, answer) =
        law.transacts ms mtvs w.store (Marked-Reads ml dl marked) (Marked-Values ml dl marked) in
      let (buffer', c', full, agree', appended) =
        filled status w.store d marked answer buffer c agree in
      let w' : Wrapper memc db = record { cache = c'; store = d; measurements = m } in
      let (w'', told, sized, cache, store, hits, misses) =
        reported ml dl status Operation.read_transaction elapsed w' (λ e. absurd (cc))
          (entries ∙ ready.entries) in
      (
        status,
        buffer',
        w'',
        rw (looked, (==_iff _ _).1 (length-Marked ml dl marked), done, full) (rw told refl),
        IsReady-after ml dl w' w'' cache store sized
            (Unchanged-Agree ml dl c' w.store d same agree'),
        (λ t k. rw store (same t k)),
        appended,
      )
