-- ===== src/Cache/Client.antt =====
-- src/memcache.cc: `MemcachedClient` over libmemcached, which is not part of the program. A call to
-- the library answers and changes the server's state.
use taobench.Prelude.{Bytes, List, [], ◌∷◌, ◌++◌, Bool, true, false, Option, none, some}
use taobench.Db.{
  TimestampValue, DbOperation, Operation, Outcome, returns, faults, Fault, ◌>>=◌, ◌>>◌, assert,
}
use taobench.Cache.Codec.{fields_to_str, timeval_to_str, str_to_timeval}

-- `memcached_get`, `memcached_set` and `memcached_delete`: `none` and `false` stand for any return
-- code but `MEMCACHED_SUCCESS`.
pub record Memcached : Type 1 where
  pub State : Type 0
  pub get : Bytes → State → Option Bytes × State
  pub set : Bytes → Bytes → State → Bool × State
  pub delete : Bytes → State → Bool × State

abbrev pub is_read : Operation → Bool
is_read Operation.read = true
is_read _ = false

-- `buffer[buffer.size()-1]`.
unfoldable pub last : List TimestampValue → Outcome TimestampValue
last [] = faults Fault.out_of_bounds
last (tv ∷ []) = returns tv
last (tv ∷ tv' ∷ tvs) = last (tv' ∷ tvs)

module _ (memc : Memcached) where
  open memc use {State}

  -- `readValue`: the empty text on any failure.
  unfoldable pub read_value : Bytes → State → Bytes × State
  read_value key s =
      let (value, s') = memc.get key s in elim value [ some v ↦ (v, s') | none ↦ ([], s') ]

  unfoldable pub parsed :
      Bytes → List TimestampValue → State → Outcome (Bool × List TimestampValue × State)
  parsed [] buffer s = returns (false, buffer, s)
  parsed (c ∷ rsl) buffer s = do
    value ← str_to_timeval (c ∷ rsl)
    returns (true, buffer ++ value ∷ [], s)

  unfoldable pub get :
      DbOperation → List TimestampValue → State → Outcome (Bool × List TimestampValue × State)
  unfolding read_value parsed
  get op buffer s = do
    assert (is_read op.operation)
    let (rsl, s') = read_value (fields_to_str op.key) s
    parsed rsl buffer s'

  -- `put` stores the last value of the buffer.
  unfoldable pub put : DbOperation → List TimestampValue → State → Outcome (Bool × State)
  unfolding last
  put op buffer s = do
    assert (is_read op.operation)
    value ← last buffer
    returns (memc.set (fields_to_str op.key) (timeval_to_str value) s)

  unfoldable pub invalidate : DbOperation → State → Bool × State
  invalidate op s = memc.delete (fields_to_str op.key) s
