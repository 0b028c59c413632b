-- ===== src/Wrapper/ShortReplies.antt =====
-- A read transaction whose database answers with fewer rows than were asked for, as the drivers do for
-- keys that they do not find.
use taobench.Prelude.{
  ℕ, zero, suc, Bytes, ◌<◌, ==_iff, List, [], ◌∷◌, ◌++◌, Bool, true, false, none, ◌≡◌, refl, ap,
  inl, inr, ◌∙◌, arith, length, replicate, append_assoc, append-nil,
}
use taobench.Db.{TimestampValue, DbOperation, Operation, k_ok, returns, faults, Fault}
use taobench.Database.{Database}
use taobench.Measurements.{Measurements, report_read}
use taobench.Cache.Codec.{fields_to_str, timeval_to_str}
use taobench.Cache.Client.{Memcached, read_value, parsed}
use taobench.Cache.Client
use taobench.Wrapper.{Wrapper, miss, look_up, fill, fill_if_ok, transaction_by, execute_transaction}
use taobench.Wrapper.Contract.{MemcachedLaws}
use taobench.Wrapper.Execute.{last-snoc}

abbrev pub AllReads : List DbOperation → Type 0
AllReads [] = Unit
AllReads (op ∷ ops) = (op.operation ≡ Operation.read) × AllReads ops

module _ {memc : Memcached} (ml : MemcachedLaws memc) (db : Database) where
  -- The cache holds nothing.
  abbrev pub IsCold : memc.State → Type 0
  IsCold c = (k : Bytes) → ml.stored c k ≡ none

  get-IsCold : (k : Bytes) (c : memc.State) → IsCold c → IsCold (memc.get k c).1
  get-IsCold k c cold j = elim (ml.get_keeps k c j) [ inl gone ↦ gone | inr same ↦ same ∙ cold j ]

  cold_answers : (k : Bytes) (c : memc.State) → IsCold c → (memc.get k c).0 ≡ none
  cold_answers k c cold = elim (ml.get_answers k c) [ inl gone ↦ gone | inr held ↦ held ∙ cold k ]

  cold_get :
      (op : DbOperation) (buffer : List TimestampValue) (c : memc.State)
      → IsCold c
      → op.operation ≡ Operation.read
      → Client.get memc op buffer c ≡ returns (false, buffer, (memc.get (fields_to_str op.key) c).1)
  unfolding Client.get read_value parsed
  cold_get op buffer c cold r = ground (arith, cold_answers (fields_to_str op.key) c cold)

  cold_look_up :
      (ops : List DbOperation) (rsl : List TimestampValue) (ms : List DbOperation) (c : memc.State)
      (m : Measurements)
      → IsCold c
      → AllReads ops
      → (c' : memc.State) × (m' : Measurements) × (look_up memc db ops rsl ms c m
          ≡ returns (rsl ++ replicate (length ops) miss, ms ++ ops, c', m'))
  unfolding look_up
  cold_look_up [] rsl ms c m cold ok = (c, m, rw (append-nil rsl, append-nil ms) refl)
  cold_look_up (op ∷ ops) rsl ms c m cold ok =
      let (c', m', done) =
        cold_look_up ops (rsl ++ miss ∷ []) (ms ++ op ∷ []) (memc.get (fields_to_str op.key) c).1
          (report_read false m) (get-IsCold (fields_to_str op.key) c cold) ok.1 in
      (
        c',
        m',
        rw (cold_get op rsl c cold ok.0) (
            done
            ∙ rw
                (
                  append_assoc rsl (miss ∷ []) (replicate (length ops) miss),
                  append_assoc ms (op ∷ []) ops,
                )
                refl),
      )

  put_returns :
      (op : DbOperation) (buffer : List TimestampValue) (tv : TimestampValue) (c : memc.State)
      → op.operation ≡ Operation.read
      → (r : Bool × memc.State) × (Client.put memc op (buffer ++ tv ∷ []) c ≡ returns r)
  unfolding Client.put
  put_returns op buffer tv c r =
      (memc.set (fields_to_str op.key) (timeval_to_str tv) c, rw (r, last-snoc buffer tv) refl)

  fill_short :
      (ops : List DbOperation) (rows buffer : List TimestampValue) (c : memc.State)
      → AllReads ops
      → length rows < length ops
      → fill memc db ops (replicate (length ops) miss) rows buffer c ≡ faults Fault.out_of_bounds
  unfolding fill
  fill_short [] rows buffer c ok short = absurd (omega arith)
  fill_short (op ∷ ops) [] buffer c ok short = refl
  fill_short (op ∷ ops) (row ∷ rows) buffer c ok short =
      let (r, put) = put_returns op buffer row c ok.0 in
      rw put (fill_short ops rows (buffer ++ row ∷ []) r.1 ok.1 (omega arith))

  length-replicate : (n : ℕ) → length (replicate n miss) ≡ n
  length-replicate zero = refl
  length-replicate (suc n) = ap suc (length-replicate n)

  -- With a memcached that makes up no values and holds nothing, a read transaction that the database reports as a success, with fewer
  -- rows than operations, reads beyond the end of the rows: the wrapper never notices that a key was
  -- not found.
  pub short_reply_faults :
      (ops : List DbOperation) (buffer : List TimestampValue) (elapsed : ℕ) (w : Wrapper memc db)
      (rows : List TimestampValue) (d : db.State)
      → IsCold w.cache
      → AllReads ops
      → db.execute_transaction ops [] true w.store ≡ returns (k_ok, rows, d)
      → length rows < length ops
      → execute_transaction memc db ops buffer true elapsed w ≡ faults Fault.out_of_bounds
  unfolding execute_transaction transaction_by fill_if_ok
  short_reply_faults ops buffer elapsed w rows d cold ok answered short =
      let (c, m, looked) = cold_look_up ops [] [] w.cache w.measurements cold ok in
      rw
        (
          looked,
          (==_iff (length (replicate (length ops) miss)) (length ops)).1
              (length-replicate (length ops)),
          answered,
          fill_short ops rows buffer c ok short,
        )
        refl
