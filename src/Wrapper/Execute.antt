-- ===== src/Wrapper/Execute.antt =====
-- `DBWrapper::Execute` reads through the cache and keeps it in agreement with the database.
use taobench.Prelude.{
  ℕ, ◌+◌, List, [], ◌∷◌, ◌++◌, true, false, some, ◌≡◌, ◌≢◌, inl, inr, refl, ◌∙◌, arith, length,
}
use taobench.Db.{
  DataTable, Field, TimestampValue, DbOperation, Operation, Status, k_ok, Outcome, returns,
}
use taobench.Database.{Database, IsKey}
use taobench.Measurements.{report_read}
use taobench.Measurements.Report.{report_total}
use taobench.Cache.Codec.{fields_to_str, timeval_to_str}
use taobench.Cache.Client.{Memcached, is_read, last}
use taobench.Cache.Client
use taobench.Wrapper.{Wrapper, is_ok, put_if_ok, after_get, execute_by, report_if_ok, execute}
use taobench.Wrapper.Contract.{MemcachedLaws, DatabaseLaws, Agree, AgreeOff, IsReady}
use taobench.Wrapper.Coherence.{
  Keeps-Agree, Unchanged-Agree, set-Agree, ChangesOnly, ChangesOnly-AgreeOff, ChangesOnly-Agree,
  get-Looked, Unchanged,
}

pub last-snoc :
    (buffer : List TimestampValue) (tv : TimestampValue) → last (buffer ++ tv ∷ []) ≡ returns tv
unfolding last
last-snoc [] tv = refl
last-snoc (a ∷ []) tv = refl
last-snoc (a ∷ b ∷ buffer) tv = last-snoc (b ∷ buffer) tv

is_ok-eq : (s : Status) → (is_ok s ≡ true) → s ≡ k_ok
is_ok-eq s h = ground arith

is_read-read : (op : Operation) → op ≡ Operation.read → is_read op ≡ true
is_read-read op e = rw e refl

not_read : (op : Operation) → op ≢ Operation.read → is_read op ≡ false
not_read Operation.read ne = absurd (ne refl)
not_read Operation.insert ne = refl
not_read _ ne = refl

module _ {memc : Memcached} (ml : MemcachedLaws memc) {db : Database} (dl : DatabaseLaws db) where
  pub put_lem :
      (op : DbOperation) (buffer : List TimestampValue) (tv : TimestampValue) (c : memc.State)
      → op.operation ≡ Operation.read
      → Client.put memc op (buffer ++ tv ∷ []) c
        ≡ returns (memc.set (fields_to_str op.key) (timeval_to_str tv) c)
  unfolding Client.put
  put_lem op buffer tv c r = rw (r, last-snoc buffer tv)

  -- After an answer of the database the value is put into the cache, and nothing after a failure.
  put_if_ok-Agree :
      (status : Status) (op : DbOperation) (buffer buffer' : List TimestampValue) (c : memc.State)
      (d d' : db.State) (tv : TimestampValue)
      → IsKey op.table op.key
      → op.operation ≡ Operation.read
      → Unchanged ml dl d d'
      → dl.lookup d op.table op.key ≡ some tv
      → (status ≡ k_ok → buffer' ≡ buffer ++ tv ∷ [])
      → Agree ml dl c d
      → (c' : memc.State) × (put_if_ok memc db (is_ok status) op buffer' c ≡ returns c')
        × Agree ml dl c' d'
  unfolding put_if_ok
  put_if_ok-Agree k_ok op buffer buffer' c d d' tv key r same found answer agree = (
    (memc.set (fields_to_str op.key) (timeval_to_str tv) c).1,
    rw (answer refl, put_lem op buffer tv c r),
    set-Agree ml dl c d' op.table op.key tv key (same op.table op.key ∙ found)
        (Unchanged-Agree ml dl c d d' same agree),
  )
  put_if_ok-Agree _ op buffer buffer' c d d' tv key r same found answer agree =
      (c, refl, Unchanged-Agree ml dl c d d' same agree)

  -- The last step of a call: the report changes neither the cache nor the database.
  pub reported :
      (status : Status) (op : Operation) (elapsed : ℕ) (w : Wrapper memc db)
      → op ≢ Operation.max_op_type
      → length w.measurements.stats ≡ 8
      → (w' : Wrapper memc db) × (report_if_ok memc db (is_ok status) op elapsed w ≡ returns w')
        × (length w'.measurements.stats ≡ 8)
        × (w'.cache ≡ w.cache)
        × (w'.store ≡ w.store)
        × (w'.measurements.read_hit ≡ w.measurements.read_hit)
        × (w'.measurements.read_miss ≡ w.measurements.read_miss)
  unfolding report_if_ok
  reported k_ok op elapsed w ne sized =
      let (m, done, stats, entries, hits, misses) =
        report_total op elapsed w.measurements ne sized in
      (record w { measurements = m }, rw done, entries, refl, refl, hits, misses)
  reported _ op elapsed w ne sized = (w, refl, sized, refl, refl, refl, refl)

  pub IsReady-after :
      (w w' : Wrapper memc db)
      → w'.cache ≡ w.cache
      → w'.store ≡ w.store
      → length w'.measurements.stats ≡ 8
      → Agree ml dl w.cache w.store
      → IsReady ml dl w'
  IsReady-after w w' cache store entries agree = record {
    agree = rw (cache, store) agree;
    entries = entries;
  }

  -- What a read does: it returns, the cache still agrees, the database is as it was, one hit or one
  -- miss is counted, and a success has appended the value.
  abbrev pub ReadsThrough :
      (Wrapper memc db → Outcome (Status × List TimestampValue × Wrapper memc db))
      → TimestampValue
      → List TimestampValue
      → Wrapper memc db
      → Type 0
  ReadsThrough call tv buffer w =
      (status : Status) × (buffer' : List TimestampValue) × (w' : Wrapper memc db) × (call w
        ≡ returns (status, buffer', w'))
      × IsReady ml dl w'
      × Unchanged ml dl w.store w'.store
      × (w'.measurements.read_hit + w'.measurements.read_miss
          ≡ w.measurements.read_hit + w.measurements.read_miss + 1)
      × (status ≡ k_ok → buffer' ≡ buffer ++ tv ∷ [])

  hit_reads :
      (op : DbOperation) (buffer : List TimestampValue) (w : Wrapper memc db) (c : memc.State)
      (tv : TimestampValue)
      → Agree ml dl c w.store
      → IsReady ml dl w
      → ReadsThrough (after_get memc db true op (buffer ++ tv ∷ []) c) tv buffer w
  unfolding after_get report_read
  hit_reads op buffer w c tv agree ready = (
    k_ok,
    buffer ++ tv ∷ [],
    record w { cache = c; measurements = report_read true w.measurements },
    refl,
    record { agree = agree; entries = ready.entries },
    (λ t k. refl),
    omega arith,
    (λ _. refl),
  )

  miss_reads :
      (op : DbOperation) (buffer : List TimestampValue) (w : Wrapper memc db) (c : memc.State)
      (tv : TimestampValue)
      → IsKey op.table op.key
      → dl.Accepts op
      → op.operation ≡ Operation.read
      → dl.lookup w.store op.table op.key ≡ some tv
      → Agree ml dl c w.store
      → IsReady ml dl w
      → ReadsThrough (after_get memc db false op buffer c) tv buffer w
  unfolding after_get report_read
  miss_reads op buffer w c tv key ok r found agree ready =
      let (status, buffer', d, done, same, answer) = dl.reads op buffer w.store tv ok r found in
      let (c', put, agree') =
        put_if_ok-Agree status op buffer buffer' c w.store d tv key r same found answer agree in
      (
        status,
        buffer',
        record { cache = c'; store = d; measurements = report_read false w.measurements },
        rw (done, put),
        record { agree = agree'; entries = ready.entries },
        same,
        omega arith,
        answer,
      )

  same_hit :
      (op : DbOperation) (buffer : List TimestampValue) (w : Wrapper memc db) (c : memc.State)
      (tv tv' : TimestampValue)
      → dl.lookup w.store op.table op.key ≡ some tv
      → dl.lookup w.store op.table op.key ≡ some tv'
      → Client.get memc op buffer w.cache ≡ returns (true, buffer ++ tv' ∷ [], c)
      → Client.get memc op buffer w.cache ≡ returns (true, buffer ++ tv ∷ [], c)
  same_hit op buffer w c tv tv' found held hit = cc

  execute_by_reads :
      (op : DbOperation) (buffer : List TimestampValue) (w : Wrapper memc db) (tv : TimestampValue)
      → IsKey op.table op.key
      → dl.Accepts op
      → op.operation ≡ Operation.read
      → dl.lookup w.store op.table op.key ≡ some tv
      → IsReady ml dl w
      → ReadsThrough (execute_by memc db true op buffer) tv buffer w
  unfolding execute_by
  execute_by_reads op buffer w tv key ok r found ready =
      let c = (memc.get (fields_to_str op.key) w.cache).1 in
      let agree =
        Keeps-Agree ml dl w.cache c w.store (ml.get_keeps (fields_to_str op.key) w.cache)
          ready.agree in
      elim (get-Looked ml dl op buffer w.cache w.store key r ready.agree) [
        | inl missed ↦ rw missed (miss_reads op buffer w c tv key ok r found agree ready)
        | inr (tv', hit, held) ↦
            rw (same_hit op buffer w c tv tv' found held hit)
              (hit_reads op buffer w c tv agree ready)
      ]

  -- Against a memcached and a driver with their documented behaviour, from a state that is ready, a
  -- read of an accepted and well-formed key that the database holds returns; whether it is answered by
  -- the cache or by the database, a success appends exactly the value that the database holds. The
  -- cache still agrees with the database, whose values are unchanged, and one hit or one miss has
  -- been counted.
  pub execute_read :
      (op : DbOperation) (buffer : List TimestampValue) (elapsed : ℕ) (w : Wrapper memc db)
      (tv : TimestampValue)
      → IsKey op.table op.key
      → dl.Accepts op
      → op.operation ≡ Operation.read
      → dl.lookup w.store op.table op.key ≡ some tv
      → IsReady ml dl w
      → ReadsThrough (execute memc db op buffer elapsed) tv buffer w
  unfolding execute
  execute_read op buffer elapsed w tv key ok r found ready =
      let (status, buffer', w', done, ready', same, counted, answer) =
        execute_by_reads op buffer w tv key ok r found ready in
      let (w'', told, entries, cache, store, hits, misses) =
        reported status op.operation elapsed w' (λ e. absurd (cc)) ready'.entries in
      (
        status,
        buffer',
        w'',
        rw (is_read-read op.operation r, done) (rw told refl),
        IsReady-after w' w'' cache store entries ready'.agree,
        (λ t k. rw store (same t k)),
        omega arith,
        answer,
      )

  -- This is the operation's key.
  abbrev pub IsOn : DbOperation → DataTable → List Field → Type 0
  IsOn op t k = (t ≡ op.table) × (k ≡ op.key)

  -- Against a memcached and a driver with their documented behaviour, from a state that is ready, a
  -- write of an accepted key, not `MAXOPTYPE`, returns, appends nothing, and changes no other
  -- well-formed key. Whatever the status, the cache agrees with the database at every other key; if
  -- memcached reported the deletion as a success, it agrees at this key too.
  pub execute_write :
      (op : DbOperation) (buffer : List TimestampValue) (elapsed : ℕ) (w : Wrapper memc db)
      → dl.Accepts op
      → op.operation ≢ Operation.read
      → op.operation ≢ Operation.max_op_type
      → IsReady ml dl w
      → (status : Status) × (w' : Wrapper memc db) × (execute memc db op buffer elapsed w
          ≡ returns (status, buffer, w'))
        × (length w'.measurements.stats ≡ 8)
        × ChangesOnly ml dl (IsOn op) w.store w'.store
        × AgreeOff ml dl (IsOn op) w'.cache w'.store
        × ((memc.delete (fields_to_str op.key) w.cache).0 ≡ true → IsReady ml dl w')
  unfolding execute execute_by Client.invalidate
  execute_write op buffer elapsed w ok nr nm ready =
      let (status, d, done, others) = dl.writes op buffer w.store ok nr in
      let c = (memc.delete (fields_to_str op.key) w.cache).1 in
      let keeps = ml.delete_keeps (fields_to_str op.key) w.cache in
      let w' : Wrapper memc db = record w { cache = c; store = d } in
      let (w'', told, entries, cache, store, hits, misses) =
        reported status op.operation elapsed w' nm ready.entries in
      let off : AgreeOff ml dl (IsOn op) c d =
        ChangesOnly-AgreeOff ml dl (IsOn op) w.cache c w.store d keeps others ready.agree in
      (
        status,
        w'',
        rw (not_read op.operation nr, done) (rw told refl),
        entries,
        (λ t k key. rw store (others t k key)),
        rw (cache, store) off,
        (λ deleted. IsReady-after w' w'' cache store entries (
            ChangesOnly-Agree ml dl (IsOn op) w.cache c w.store d keeps others
              (λ t k on. rw (on.1) (ml.delete_removes (fields_to_str op.key) w.cache deleted))
              ready.agree)),
      )
