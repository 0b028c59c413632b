-- ===== src/Wrapper/Coherence.antt =====
-- The cache agrees with the database after each step of the wrapper.
use taobench.Prelude.{
  Bytes, List, [], ◌∷◌, ◌++◌, true, false, none, some, ◌≡◌, ◌≢◌, ◌⊎◌, inl, inr, refl, sym, ap, ◌∙◌,
  arith, Option-cases,
}
use taobench.Db.{
  DataTable, Field, TimestampValue, DbOperation, Operation, returns, edge_key, object_key,
}
use taobench.Database.{Database, IsKey, edge, object}
use taobench.Cache.Codec.{
  fields_to_str, timeval_to_str, str_to_timeval, fields_to_str-values,
  str_to_timeval-timeval_to_str, timeval_to_str-ne-nil,
}
use taobench.Cache.Client.{Memcached, read_value, parsed}
use taobench.Cache.Client
use taobench.Wrapper.Contract.{MemcachedLaws, DatabaseLaws, Agree, AgreeOff}

-- Keys in the two formats are told apart by their texts, and so are their tables.
pub key_unique :
    {t u : DataTable} {k l : List Field}
    → IsKey t k
    → IsKey u l
    → fields_to_str k ≡ fields_to_str l
    → (t ≡ u) × (k ≡ l)
key_unique (edge a b c) (edge a' b' c') e =
    let same = fields_to_str-values (edge_key a b c) (edge_key a' b' c') e in ground arith
key_unique (edge a b c) (object i) e =
    let same = fields_to_str-values (edge_key a b c) (object_key i) e in ground arith
key_unique (object i) (edge a b c) e =
    let same = fields_to_str-values (object_key i) (edge_key a b c) e in ground arith
key_unique (object i) (object j) e =
    let same = fields_to_str-values (object_key i) (object_key j) e in ground arith

module _ {memc : Memcached} (ml : MemcachedLaws memc) {db : Database} (dl : DatabaseLaws db) where
  -- The second state of the cache holds nothing that the first did not.
  abbrev pub Keeps : memc.State → memc.State → Type 0
  Keeps c c' = (j : Bytes) → (ml.stored c' j ≡ none) ⊎ (ml.stored c' j ≡ ml.stored c j)

  abbrev pub Unchanged : db.State → db.State → Type 0
  Unchanged d d' = (t : DataTable) (k : List Field) → dl.lookup d' t k ≡ dl.lookup d t k

  pub Keeps-Agree :
      (c c' : memc.State) (d : db.State) → Keeps c c' → Agree ml dl c d → Agree ml dl c' d
  Keeps-Agree c c' d keeps agree t k v key held = elim (keeps (fields_to_str k)) [
    | inl gone ↦ absurd (cc)
    | inr same ↦ agree t k v key (sym same ∙ held)
  ]

  pub Unchanged-Agree :
      (c : memc.State) (d d' : db.State) → Unchanged d d' → Agree ml dl c d → Agree ml dl c d'
  Unchanged-Agree c d d' same agree t k v key held =
      let (tv, found, text) = agree t k v key held in (tv, same t k ∙ found, text)

  -- A value that the database holds is stored under its own key.
  pub set-Agree :
      (c : memc.State) (d : db.State) (t : DataTable) (k : List Field) (tv : TimestampValue)
      → IsKey t k
      → dl.lookup d t k ≡ some tv
      → Agree ml dl c d
      → Agree ml dl (memc.set (fields_to_str k) (timeval_to_str tv) c).1 d
  set-Agree c d t k tv key found agree u l v key' held =
      elim (ml.set_keeps (fields_to_str k) (timeval_to_str tv) c (fields_to_str l)) [
        | inl gone ↦ absurd (cc)
        | inr (inl same) ↦ agree u l v key' (sym same ∙ held)
        | inr (inr (here, put)) ↦
            (let (tables, keys) = key_unique key' key here in (tv, rw (tables, keys) found, cc))
      ]

  -- Of the keys in the two formats, these change at most.
  abbrev pub ChangesOnly : (DataTable → List Field → Type 0) → db.State → db.State → Type 0
  ChangesOnly P d d' =
      (t : DataTable) (k : List Field) → IsKey t k → P t k ⊎ (dl.lookup d' t k ≡ dl.lookup d t k)

  pub ChangesOnly-AgreeOff :
      (P : DataTable → List Field → Type 0) (c c' : memc.State) (d d' : db.State)
      → Keeps c c'
      → ChangesOnly P d d'
      → Agree ml dl c d
      → AgreeOff ml dl P c' d'
  ChangesOnly-AgreeOff P c c' d d' keeps changes agree t k v key off held = elim (changes t k key) [
    | inl on ↦ absurd (off on)
    | inr same ↦
        (let (tv, found, text) = Keeps-Agree c c' d keeps agree t k v key held in
          (tv, same ∙ found, text))
  ]

  -- Where the entries of the keys that may have changed are removed, the two agree again.
  pub ChangesOnly-Agree :
      (P : DataTable → List Field → Type 0) (c c' : memc.State) (d d' : db.State)
      → Keeps c c'
      → ChangesOnly P d d'
      → ((t : DataTable) (k : List Field) → P t k → ml.stored c' (fields_to_str k) ≡ none)
      → Agree ml dl c d
      → Agree ml dl c' d'
  ChangesOnly-Agree P c c' d d' keeps changes removed agree t k v key held =
      ChangesOnly-AgreeOff P c c' d d' keeps changes agree t k v key
        (λ on. absurd (cc (removed t k on))) held

  -- What a lookup of an operation's key gives while the cache agrees with the database: a miss, or
  -- the value that the database holds.
  abbrev pub Looked :
      DbOperation → List TimestampValue → memc.State → db.State → memc.State → Type 0
  Looked op buffer c d c' =
      (Client.get memc op buffer c ≡ returns (false, buffer, c'))
      ⊎ ((tv : TimestampValue) × (Client.get memc op buffer c
            ≡ returns (true, buffer ++ tv ∷ [], c'))
          × (dl.lookup d op.table op.key ≡ some tv))

  get-eq-parsed :
      (op : DbOperation) (buffer : List TimestampValue) (c : memc.State)
      → op.operation ≡ Operation.read
      → Client.get memc op buffer c
        ≡ parsed memc
            (read_value memc (fields_to_str op.key) c).0
            buffer
            (read_value memc (fields_to_str op.key) c).1
  unfolding Client.get
  get-eq-parsed op buffer c r = rw r

  read_value-none :
      (k : Bytes) (c : memc.State)
      → (memc.get k c).0 ≡ none
      → read_value memc k c ≡ ([], (memc.get k c).1)
  unfolding read_value
  read_value-none k c e = ground arith

  read_value-some :
      (k : Bytes) (c : memc.State) (v : Bytes)
      → (memc.get k c).0 ≡ some v
      → read_value memc k c ≡ (v, (memc.get k c).1)
  unfolding read_value
  read_value-some k c v e = ground arith

  parsed-timeval :
      (v : Bytes) (tv : TimestampValue) (buffer : List TimestampValue) (c : memc.State)
      → v ≢ []
      → str_to_timeval v ≡ returns tv
      → parsed memc v buffer c ≡ returns (true, buffer ++ tv ∷ [], c)
  unfolding parsed
  parsed-timeval [] tv buffer c ne e = absurd (ne refl)
  parsed-timeval (b ∷ v) tv buffer c ne e = rw e

  parsed-nil :
      (buffer : List TimestampValue) (c : memc.State)
      → parsed memc [] buffer c ≡ returns (false, buffer, c)
  unfolding parsed
  parsed-nil buffer c = refl

  -- The client's lookup returns, keeps the cache, and gives the database's value on a hit.
  pub get-Looked :
      (op : DbOperation) (buffer : List TimestampValue) (c : memc.State) (d : db.State)
      → IsKey op.table op.key
      → op.operation ≡ Operation.read
      → Agree ml dl c d
      → Looked op buffer c d (memc.get (fields_to_str op.key) c).1
  get-Looked op buffer c d key r agree = elim (Option-cases (memc.get (fields_to_str op.key) c).0) [
    | inl missed ↦ inl (
        get-eq-parsed op buffer c r
        ∙ rw (read_value-none (fields_to_str op.key) c missed) (parsed-nil buffer _))
    | inr (v, hit) ↦ (elim (ml.get_answers (fields_to_str op.key) c) [
      | inl missed ↦ absurd (cc)
      | inr held ↦
          (let (tv, found, text) = agree op.table op.key v key (sym held ∙ hit) in
            inr (
              tv,
              get-eq-parsed op buffer c r
                  ∙ rw (read_value-some (fields_to_str op.key) c v hit) (
                      parsed-timeval v tv buffer _ (λ e. timeval_to_str-ne-nil tv (sym text ∙ e))
                        (ap str_to_timeval text
                          ∙ str_to_timeval-timeval_to_str tv
                              (dl.in_range d op.table op.key tv found))),
              found,
            ))
    ])
  ]
