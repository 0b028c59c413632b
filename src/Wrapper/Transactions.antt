-- ===== src/Wrapper/Transactions.antt =====
-- `DBWrapper::ExecuteTransaction` on read transactions: what the two loops make of the cache's and
-- the database's answers.
use taobench.Prelude.{
  suc, negsuc, ◌==ℤ◌, ==ℤ→eq, List, [], ◌∷◌, ◌++◌, true, false, some, ◌≡◌, ◌≢◌, inl, inr, refl, ap,
  ◌∙◌, length, append_assoc, Bool-cases, append-nil,
}
use taobench.Db.{TimestampValue, DbOperation, Operation, returns}
use taobench.Database.{Database, IsKey}
use taobench.Measurements.{Measurements, report_read}
use taobench.Cache.Codec.{fields_to_str}
use taobench.Cache.Client.{Memcached}
use taobench.Cache.Client
use taobench.Wrapper.{miss, look_up, fill}
use taobench.Wrapper.Contract.{MemcachedLaws, DatabaseLaws, Agree}
use taobench.Wrapper.Coherence.{Keeps-Agree, set-Agree, get-Looked}
use taobench.Wrapper.Execute.{put_lem}

unmarked : (tv : TimestampValue) → tv.timestamp ≢ negsuc 0 → (tv.timestamp ==ℤ negsuc 0) ≡ false
unmarked tv ne = elim (Bool-cases (tv.timestamp ==ℤ negsuc 0)) [
  | inl e ↦ absurd (ne (==ℤ→eq tv.timestamp (negsuc 0) e))
  | inr e ↦ e
]

module _ {memc : Memcached} (ml : MemcachedLaws memc) {db : Database} (dl : DatabaseLaws db) where
  -- The operations of a transaction are reads that the driver accepts.
  abbrev pub Reads : List DbOperation → Type 0
  Reads [] = Unit
  Reads (op ∷ ops) =
      (IsKey op.table op.key × (op.operation ≡ Operation.read) × dl.Accepts op) × Reads ops

  -- The database holds these values for them, none of which has the timestamp that marks a miss.
  abbrev pub Values : db.State → List DbOperation → List TimestampValue → Type 0
  Values d [] [] = Unit
  Values d (op ∷ ops) (tv ∷ tvs) =
      ((dl.lookup d op.table op.key ≡ some tv) × (tv.timestamp ≢ negsuc 0)) × Values d ops tvs
  Values d _ _ = ⊥

  -- The results of the first loop beside the operations and their values: a mark and an operation
  -- for the database at each miss, the value at each hit.
  pub data Marked (d : db.State)
      : List DbOperation
        → List TimestampValue
        → List TimestampValue
        → List DbOperation
        → List TimestampValue
        → Type 0 where
    none_left : Marked d [] [] [] [] []
    hit :
        {op : DbOperation} {tv : TimestampValue} {ops : List DbOperation}
        {tvs rsl : List TimestampValue} {ms : List DbOperation} {mtvs : List TimestampValue}
        → tv.timestamp ≢ negsuc 0
        → Marked d ops tvs rsl ms mtvs
        → Marked d (op ∷ ops) (tv ∷ tvs) (tv ∷ rsl) ms mtvs
    missed :
        {op : DbOperation} {tv : TimestampValue} {ops : List DbOperation}
        {tvs rsl : List TimestampValue} {ms : List DbOperation} {mtvs : List TimestampValue}
        → IsKey op.table op.key × (op.operation ≡ Operation.read) × dl.Accepts op
        → (dl.lookup d op.table op.key ≡ some tv) × (tv.timestamp ≢ negsuc 0)
        → Marked d ops tvs rsl ms mtvs
        → Marked d (op ∷ ops) (tv ∷ tvs) (miss ∷ rsl) (op ∷ ms) (tv ∷ mtvs)

  pub Marked-Reads :
      {d : db.State} {ops ms : List DbOperation} {tvs rsl mtvs : List TimestampValue}
      → Marked d ops tvs rsl ms mtvs
      → Reads ms
  Marked-Reads none_left = tt
  Marked-Reads (hit ne m) = Marked-Reads m
  Marked-Reads (missed ok found m) = (ok, Marked-Reads m)

  pub Marked-Values :
      {d : db.State} {ops ms : List DbOperation} {tvs rsl mtvs : List TimestampValue}
      → Marked d ops tvs rsl ms mtvs
      → Values d ms mtvs
  Marked-Values none_left = tt
  Marked-Values (hit ne m) = Marked-Values m
  Marked-Values (missed ok found m) = (found, Marked-Values m)

  pub length-Marked :
      {d : db.State} {ops ms : List DbOperation} {tvs rsl mtvs : List TimestampValue}
      → Marked d ops tvs rsl ms mtvs
      → length rsl ≡ length ops
  length-Marked none_left = refl
  length-Marked (hit ne m) = ap suc (length-Marked m)
  length-Marked (missed ok found m) = ap suc (length-Marked m)

  hit_value :
      (op : DbOperation) (rsl : List TimestampValue) (c c' : memc.State) (d : db.State)
      (tv tv' : TimestampValue)
      → Client.get memc op rsl c ≡ returns (true, rsl ++ tv' ∷ [], c')
      → dl.lookup d op.table op.key ≡ some tv'
      → dl.lookup d op.table op.key ≡ some tv
      → Client.get memc op rsl c ≡ returns (true, rsl ++ tv ∷ [], c')
  hit_value op rsl c c' d tv tv' here held found = cc

  abbrev LooksUp :
      db.State
      → List DbOperation
      → List TimestampValue
      → List TimestampValue
      → List DbOperation
      → memc.State
      → Measurements
      → Type 0
  LooksUp d ops tvs rsl₀ ms₀ c m =
      (rsl : List TimestampValue) × (ms : List DbOperation) × (mtvs : List TimestampValue)
      × (c' : memc.State) × (m' : Measurements) × (look_up memc db ops rsl₀ ms₀ c m
          ≡ returns (rsl₀ ++ rsl, ms₀ ++ ms, c', m'))
      × Marked d ops tvs rsl ms mtvs
      × Agree ml dl c' d
      × (length m'.stats ≡ length m.stats)

  pub look_up_lem :
      (d : db.State) (ops : List DbOperation) (tvs rsl₀ : List TimestampValue)
      (ms₀ : List DbOperation) (c : memc.State) (m : Measurements)
      → Reads ops
      → Values d ops tvs
      → Agree ml dl c d
      → LooksUp d ops tvs rsl₀ ms₀ c m
  unfolding look_up report_read
  look_up_lem d [] [] rsl₀ ms₀ c m ok found agree =
      ([], [], [], c, m, rw (append-nil rsl₀, append-nil ms₀) refl, none_left, agree, refl)
  look_up_lem d [] (tv ∷ tvs) rsl₀ ms₀ c m ok found agree = absurd found
  look_up_lem d (op ∷ ops) [] rsl₀ ms₀ c m ok found agree = absurd found
  look_up_lem d (op ∷ ops) (tv ∷ tvs) rsl₀ ms₀ c m ok found agree =
      let c' = (memc.get (fields_to_str op.key) c).1 in
      let agree' : Agree ml dl c' d =
        Keeps-Agree ml dl c c' d (ml.get_keeps (fields_to_str op.key) c) agree in
      elim (get-Looked ml dl op rsl₀ c d ok.0.0 ok.0.1 agree) [
        | inl gone ↦ rw gone (
            let (rsl, ms, mtvs, c'', m', done, marked, still, entries) =
              look_up_lem d ops tvs (rsl₀ ++ miss ∷ []) (ms₀ ++ op ∷ []) c' (report_read false m)
                ok.1 found.1 agree' in
            (
              miss ∷ rsl,
              op ∷ ms,
              tv ∷ mtvs,
              c'',
              m',
              done ∙ rw (append_assoc rsl₀ (miss ∷ []) rsl, append_assoc ms₀ (op ∷ []) ms) refl,
              missed ok.0 found.0 marked,
              still,
              entries,
            ))
        | inr (tv', here, held) ↦ rw (hit_value op rsl₀ c c' d tv tv' here held found.0.0) (
            let (rsl, ms, mtvs, c'', m', done, marked, still, entries) =
              look_up_lem d ops tvs (rsl₀ ++ tv ∷ []) ms₀ c' (report_read true m) ok.1 found.1
                agree' in
            (
              tv ∷ rsl,
              ms,
              mtvs,
              c'',
              m',
              done ∙ rw (append_assoc rsl₀ (tv ∷ []) rsl) refl,
              hit found.0.1 marked,
              still,
              entries,
            ))
      ]

  abbrev Fills :
      db.State
      → List DbOperation
      → List TimestampValue
      → List TimestampValue
      → List TimestampValue
      → List TimestampValue
      → memc.State
      → Type 0
  Fills d ops tvs rsl rows buffer c =
      (c' : memc.State) × (fill memc db ops rsl rows buffer c ≡ returns (buffer ++ tvs, c'))
      × Agree ml dl c' d

  -- The second loop puts the rows where the marks are.
  pub fill_lem :
      (d : db.State) {ops ms : List DbOperation} {tvs rsl mtvs : List TimestampValue}
      → Marked d ops tvs rsl ms mtvs
      → (buffer : List TimestampValue) (c : memc.State) → Agree ml dl c d
      → Fills d ops tvs rsl mtvs buffer c
  unfolding fill
  fill_lem d none_left buffer c agree = (c, rw (append-nil buffer) refl, agree)
  fill_lem d (hit {tv = tv} {tvs = tvs} ne m) buffer c agree =
      let (c', done, still) = fill_lem d m (buffer ++ tv ∷ []) c agree in
      (c', rw (unmarked tv ne, fill) (done ∙ rw (append_assoc buffer (tv ∷ []) tvs) refl), still)
  fill_lem d (missed {op = op} {tv = tv} {tvs = tvs} ok found m) buffer c agree =
      let (c', done, still) =
        fill_lem d m (buffer ++ tv ∷ []) _
          (set-Agree ml dl c d op.table op.key tv ok.0 found.0 agree) in
      (
        c',
        rw (put_lem ml dl op buffer tv c ok.1) (done ∙ rw (append_assoc buffer (tv ∷ []) tvs) refl),
        still,
      )
