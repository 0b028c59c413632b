-- ===== src/Wrapper/WriteTransactions.antt =====
-- `DBWrapper::ExecuteTransaction`: a write transaction removes the entries of all its keys.
use taobench.Prelude.{
  ℕ, Bytes, List, [], ◌∷◌, All, true, false, none, ◌≡◌, ◌≢◌, ◌⊎◌, inl, inr, refl, ◌∙◌, length,
}
use taobench.Db.{DataTable, Field, TimestampValue, DbOperation, Operation, Status, returns}
use taobench.Database.{Database}
use taobench.Cache.Codec.{fields_to_str}
use taobench.Cache.Client.{Memcached}
use taobench.Cache.Client
use taobench.Wrapper.{Wrapper, invalidate_all, transaction_by, execute_transaction}
use taobench.Wrapper.Contract.{MemcachedLaws, DatabaseLaws, AgreeOff, IsReady}
use taobench.Wrapper.Coherence.{ChangesOnly, ChangesOnly-AgreeOff, ChangesOnly-Agree}
use taobench.Wrapper.Execute.{reported, IsReady-after}

-- An operation is on this key.
abbrev pub IsAmong : DataTable → List Field → List DbOperation → Type 0
IsAmong t k [] = ⊥
IsAmong t k (op ∷ ops) = ((t ≡ op.table) × (k ≡ op.key)) ⊎ IsAmong t k ops

module _ {memc : Memcached} (ml : MemcachedLaws memc) where
  -- memcached reports each of the deletions, one after another, as a success.
  abbrev pub AllDeleted : List DbOperation → memc.State → Type 0
  AllDeleted [] c = Unit
  AllDeleted (op ∷ ops) c =
      ((memc.delete (fields_to_str op.key) c).0 ≡ true)
      × AllDeleted ops (memc.delete (fields_to_str op.key) c).1

  invalidate_all-keeps :
      (ops : List DbOperation) (c : memc.State) (db : Database) (j : Bytes)
      → (ml.stored (invalidate_all memc db ops c) j ≡ none)
        ⊎ (ml.stored (invalidate_all memc db ops c) j ≡ ml.stored c j)
  unfolding invalidate_all Client.invalidate
  invalidate_all-keeps [] c db j = inr refl
  invalidate_all-keeps (op ∷ ops) c db j =
      let c' = (memc.delete (fields_to_str op.key) c).1 in
      elim (invalidate_all-keeps ops c' db j) [
        | inl gone ↦ inl gone
        | inr same ↦ (elim (ml.delete_keeps (fields_to_str op.key) c j) [
          | inl gone ↦ inl (same ∙ gone)
          | inr kept ↦ inr (same ∙ kept)
        ])
      ]

  invalidate_all-removes :
      (ops : List DbOperation) (c : memc.State) (db : Database) (t : DataTable) (k : List Field)
      → IsAmong t k ops
      → AllDeleted ops c
      → ml.stored (invalidate_all memc db ops c) (fields_to_str k) ≡ none
  unfolding invalidate_all Client.invalidate
  invalidate_all-removes [] c db t k among deleted = absurd among
  invalidate_all-removes (op ∷ ops) c db t k (inr among) deleted =
      invalidate_all-removes ops (memc.delete (fields_to_str op.key) c).1 db t k among deleted.1
  invalidate_all-removes (op ∷ ops) c db t k (inl (tables, keys)) deleted =
      let removed = ml.delete_removes (fields_to_str op.key) c deleted.0 in
      elim (invalidate_all-keeps ops (memc.delete (fields_to_str op.key) c).1 db
        (fields_to_str k)) [ inl gone ↦ gone | inr same ↦ same ∙ rw keys removed ]

module _ {memc : Memcached} (ml : MemcachedLaws memc) {db : Database} (dl : DatabaseLaws db) where
  abbrev pub ChangesAmong : List DbOperation → db.State → db.State → Type 0
  ChangesAmong ops d d' = ChangesOnly ml dl (λ t k. IsAmong t k ops) d d'

  -- A driver's write transactions: whatever its status, one changes the values of its own keys at
  -- most, and appends nothing.
  pub record WritesOwnKeys : Type 0 where
    pub transacts :
        (ops : List DbOperation) (buffer : List TimestampValue) (s : db.State)
        → All (λ op. dl.Accepts op × (op.operation ≢ Operation.read)) ops
        → (status : Status) × (s' : db.State) × (db.execute_transaction ops buffer false s
            ≡ returns (status, buffer, s'))
          × ChangesAmong ops s s'

  -- Against a memcached and a driver with their documented behaviour, from a state that is ready, a
  -- write transaction with an operation or more, all of them accepted writes, returns, appends
  -- nothing, and changes no well-formed key that no operation is on. Whatever the status, the cache
  -- agrees with the database at all those keys; if memcached reported every deletion as a success,
  -- it agrees at every key, however the keys repeat.
  pub write_transaction :
      WritesOwnKeys
      → (op : DbOperation) (ops : List DbOperation) (buffer : List TimestampValue) (elapsed : ℕ)
        (w : Wrapper memc db)
      → All (λ o. dl.Accepts o × (o.operation ≢ Operation.read)) (op ∷ ops)
      → IsReady ml dl w
      → (status : Status) × (w' : Wrapper memc db) × (execute_transaction memc db
            (op ∷ ops)
            buffer
            false
            elapsed
            w
          ≡ returns (status, buffer, w'))
        × (length w'.measurements.stats ≡ 8)
        × ChangesAmong (op ∷ ops) w.store w'.store
        × AgreeOff ml dl (λ t k. IsAmong t k (op ∷ ops)) w'.cache w'.store
        × (AllDeleted ml (op ∷ ops) w.cache → IsReady ml dl w')
  unfolding execute_transaction transaction_by
  write_transaction law op ops buffer elapsed w ok ready =
      let P : DataTable → List Field → Type 0 = λ t k. IsAmong t k (op ∷ ops) in
      let (status, d, done, others) = law.transacts (op ∷ ops) buffer w.store ok in
      let c = invalidate_all memc db (op ∷ ops) w.cache in
      let keeps = invalidate_all-keeps ml (op ∷ ops) w.cache db in
      let w' : Wrapper memc db = record w { cache = c; store = d } in
      let (w'', told, entries, cache, store, hits, misses) =
        reported ml dl status Operation.write_transaction elapsed w' (λ e. absurd (cc))
          ready.entries in
      let off : AgreeOff ml dl P c d =
        ChangesOnly-AgreeOff ml dl P w.cache c w.store d keeps others ready.agree in
      (
        status,
        w'',
        rw done (rw told refl),
        entries,
        (λ t k key. rw store (others t k key)),
        rw (cache, store) off,
        (λ deleted. IsReady-after ml dl w' w'' cache store entries (
            ChangesOnly-Agree ml dl P w.cache c w.store d keeps others
              (λ t k on. invalidate_all-removes ml (op ∷ ops) w.cache db t k on deleted)
              ready.agree)),
      )
