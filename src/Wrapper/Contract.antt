-- ===== src/Wrapper/Contract.antt =====
-- What the wrapper relies on: the documented behaviour of memcached and of a driver of the class `DB`,
-- and what it means that the cache agrees with the database.
use taobench.Prelude.{
  Bytes, List, [], ◌∷◌, ◌++◌, true, Option, none, some, ◌≡◌, ◌≢◌, ◌⊎◌, InRange64, length,
}
use taobench.Db.{DataTable, Field, TimestampValue, DbOperation, Operation, Status, k_ok, returns}
use taobench.Database.{Database, IsKey}
use taobench.Cache.Client.{Memcached}
use taobench.Cache.Codec.{fields_to_str, timeval_to_str}
use taobench.Wrapper.{Wrapper}

-- memcached may drop an entry at any time, and a call that is not a success leaves what it leaves;
-- but it never makes up a value, and an entry whose deletion is reported as a success is gone.
pub record MemcachedLaws (memc : Memcached) : Type 0 where
  pub stored : memc.State → Bytes → Option Bytes
  pub get_answers :
      (k : Bytes) (s : memc.State) → ((memc.get k s).0 ≡ none) ⊎ ((memc.get k s).0 ≡ stored s k)
  pub get_keeps :
      (k : Bytes) (s : memc.State) (j : Bytes)
      → (stored (memc.get k s).1 j ≡ none) ⊎ (stored (memc.get k s).1 j ≡ stored s j)
  pub set_keeps :
      (k v : Bytes) (s : memc.State) (j : Bytes)
      → (stored (memc.set k v s).1 j ≡ none)
        ⊎ ((stored (memc.set k v s).1 j ≡ stored s j)
            ⊎ ((j ≡ k) × (stored (memc.set k v s).1 j ≡ some v)))
  pub delete_removes :
      (k : Bytes) (s : memc.State)
      → (memc.delete k s).0 ≡ true
      → stored (memc.delete k s).1 k ≡ none
  pub delete_keeps :
      (k : Bytes) (s : memc.State) (j : Bytes)
      → (stored (memc.delete k s).1 j ≡ none) ⊎ (stored (memc.delete k s).1 j ≡ stored s j)

-- A driver, for the operations that it accepts: a read of a key that it holds changes nothing, and if
-- it succeeds appends the value of the key; a write changes the value of its own key at most, and
-- appends nothing. Yugabyte/Contract fills it with the driver for YugabyteDB.
pub record DatabaseLaws (db : Database) : Type 1 where
  pub Accepts : DbOperation → Type 0
  pub lookup : db.State → DataTable → List Field → Option TimestampValue
  pub in_range :
      (s : db.State) (t : DataTable) (k : List Field) (tv : TimestampValue)
      → lookup s t k ≡ some tv
      → InRange64 tv.timestamp
  pub reads :
      (op : DbOperation) (buffer : List TimestampValue) (s : db.State) (tv : TimestampValue)
      → Accepts op
      → op.operation ≡ Operation.read
      → lookup s op.table op.key ≡ some tv
      → (status : Status) × (buffer' : List TimestampValue) × (s' : db.State) × (db.execute op
            buffer s
          ≡ returns (status, buffer', s'))
        × ((t : DataTable) (k : List Field) → lookup s' t k ≡ lookup s t k)
        × (status ≡ k_ok → buffer' ≡ buffer ++ tv ∷ [])
  pub writes :
      (op : DbOperation) (buffer : List TimestampValue) (s : db.State)
      → Accepts op
      → op.operation ≢ Operation.read
      → (status : Status) × (s' : db.State) × (db.execute op buffer s
          ≡ returns (status, buffer, s'))
        × ((t : DataTable) (k : List Field)
            → IsKey t k
            → ((t ≡ op.table) × (k ≡ op.key)) ⊎ (lookup s' t k ≡ lookup s t k))

module _ {memc : Memcached} (ml : MemcachedLaws memc) {db : Database} (dl : DatabaseLaws db) where
  -- Whatever the cache holds for a key is the text of the value that the database holds for it.
  abbrev pub Agree : memc.State → db.State → Type 0
  Agree c d =
      (t : DataTable) (k : List Field) (v : Bytes)
      → IsKey t k
      → ml.stored c (fields_to_str k) ≡ some v
      → (tv : TimestampValue) × (dl.lookup d t k ≡ some tv) × (v ≡ timeval_to_str tv)

  -- They agree at the keys that are not among these.
  abbrev pub AgreeOff : (DataTable → List Field → Type 0) → memc.State → db.State → Type 0
  AgreeOff P c d =
      (t : DataTable) (k : List Field) (v : Bytes)
      → IsKey t k
      → (P t k → ⊥)
      → ml.stored c (fields_to_str k) ≡ some v
      → (tv : TimestampValue) × (dl.lookup d t k ≡ some tv) × (v ≡ timeval_to_str tv)

  -- The cache agrees with the database, and the counters have their eight entries.
  pub record IsReady (w : Wrapper memc db) : Type 0 where
    pub agree : Agree w.cache w.store
    pub entries : length w.measurements.stats ≡ 8
