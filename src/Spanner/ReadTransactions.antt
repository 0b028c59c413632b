-- ===== src/Spanner/ReadTransactions.antt =====
-- The read transactions of `SpannerDB`: what they read, and where they fail.
use taobench.Prelude.{
  ℤ, pos, List, [], ◌∷◌, ◌++◌, none, if◌then◌else◌, Bool, true, false, ◌≡◌, refl, sym, ap, ◌∙◌,
  append_assoc, append-nil,
}
use taobench.Db.{
  DataTable, edges, objects, Field, TimestampValue, DbOperation, Operation, k_ok, Outcome, returns,
  edge_key_values, object_key_value,
}
use taobench.Database.{IsKey, AreReads}
use taobench.Spanner.Client.{SpannerClient}
use taobench.Spanner.Driver.{build_edge_key_set, build_object_key_set}
use taobench.Spanner.Transactions.{
  ReadKeys, no_keys, is_among, add_key, collect_keys, read_objects, read_edges, execute_transaction,
}

abbrev same_table : DataTable → DataTable → Bool
same_table edges edges = true
same_table objects objects = true
same_table _ _ = false

-- The keys that the operations read from a table, in their order.
abbrev pub keys_on : DataTable → List DbOperation → List (List Field)
keys_on t [] = []
keys_on t (op ∷ ops) = if same_table t op.table then op.key ∷ keys_on t ops else keys_on t ops

abbrev first_id : List Field → ℤ
first_id [] = pos 0
first_id (f ∷ fs) = f.value

abbrev pub values : List Field → List ℤ
values [] = []
values (f ∷ fs) = f.value ∷ values fs

abbrev pub values_on : DataTable → List DbOperation → List (List ℤ)
values_on t [] = []
values_on t (op ∷ ops) =
    if same_table t op.table then values op.key ∷ values_on t ops else values_on t ops

abbrev ids_on : DataTable → List DbOperation → List ℤ
ids_on t [] = []
ids_on t (op ∷ ops) = if same_table t op.table then first_id op.key ∷ ids_on t ops else ids_on t ops

-- No value of the list was seen before or occurs twice.
abbrev NewFrom : List ℤ → List ℤ → Type 0
NewFrom seen [] = Unit
NewFrom seen (i ∷ is) = (is_among i seen ≡ false) × NewFrom (i ∷ seen) is

-- No two reads of one table begin with the same id.
abbrev pub HasDistinctIds : List DbOperation → Type 0
HasDistinctIds ops = NewFrom [] (ids_on edges ops) × NewFrom [] (ids_on objects ops)

abbrev Collected : List DbOperation → ReadKeys → Type 0
Collected ops ks =
    (ks' : ReadKeys) × (collect_keys ops ks ≡ returns ks')
    × (ks'.edge_keys ≡ ks.edge_keys ++ keys_on edges ops)
    × (ks'.object_keys ≡ ks.object_keys ++ keys_on objects ops)

collect-cons :
    (t : DataTable) (k : List Field) (tv : TimestampValue) (o : Operation) (ops : List DbOperation)
    (ks : ReadKeys)
    → let op : DbOperation = record { table = t; key = k; time_and_value = tv; operation = o } in
      IsKey t k
      → o ≡ Operation.read
      → NewFrom ks.edge_ids (ids_on edges (op ∷ ops))
      → NewFrom ks.object_ids (ids_on objects (op ∷ ops))
      → ((ks' : ReadKeys)
          → NewFrom ks'.edge_ids (ids_on edges ops)
          → NewFrom ks'.object_ids (ids_on objects ops)
          → Collected ops ks')
      → Collected (op ∷ ops) ks
unfolding collect_keys add_key
collect-cons edges k tv o ops ks (IsKey.edge a b c) r ne nb rest =
    let (ks', done, es, os) =
      rest (record ks { edge_keys = ks.edge_keys ++ k ∷ []; edge_ids = a ∷ ks.edge_ids }) ne.1 nb in
    (ks', rw (r, ne.0) done, es ∙ append_assoc ks.edge_keys (k ∷ []) (keys_on edges ops), os)
collect-cons objects k tv o ops ks (IsKey.object a) r ne nb rest =
    let (ks', done, es, os) =
      rest (record ks { object_keys = ks.object_keys ++ k ∷ []; object_ids = a ∷ ks.object_ids }) ne
        nb.1 in
    (ks', rw (r, nb.0) done, es, os ∙ append_assoc ks.object_keys (k ∷ []) (keys_on objects ops))

collect_lem :
    (ops : List DbOperation) (ks : ReadKeys)
    → AreReads ops
    → NewFrom ks.edge_ids (ids_on edges ops)
    → NewFrom ks.object_ids (ids_on objects ops)
    → Collected ops ks
unfolding collect_keys
collect_lem [] ks ok ne nb =
    (ks, refl, sym (append-nil ks.edge_keys), sym (append-nil ks.object_keys))
collect_lem (op ∷ ops) ks ((k, r), ok) ne nb =
    collect-cons op.table op.key op.time_and_value op.operation ops ks k r ne nb
      (λ ks' ne' nb'. collect_lem ops ks' ok ne' nb')

edge_set-cons :
    (t : DataTable) (k : List Field) (keys : List (List Field)) (vals : List (List ℤ))
    → IsKey t k
    → build_edge_key_set keys ≡ returns vals
    → build_edge_key_set (if same_table edges t then k ∷ keys else keys)
      ≡ returns (if same_table edges t then values k ∷ vals else vals)
unfolding build_edge_key_set edge_key_values
edge_set-cons edges k keys vals (IsKey.edge a b c) h = rw h refl
edge_set-cons objects k keys vals (IsKey.object a) h = h

edge_set :
    (ops : List DbOperation)
    → AreReads ops
    → build_edge_key_set (keys_on edges ops) ≡ returns (values_on edges ops)
unfolding build_edge_key_set
edge_set [] ok = refl
edge_set (op ∷ ops) ok =
    edge_set-cons op.table op.key (keys_on edges ops) (values_on edges ops) ok.0.0
      (edge_set ops ok.1)

object_set-cons :
    (t : DataTable) (k : List Field) (keys : List (List Field)) (vals : List (List ℤ))
    → IsKey t k
    → build_object_key_set keys ≡ returns vals
    → build_object_key_set (if same_table objects t then k ∷ keys else keys)
      ≡ returns (if same_table objects t then values k ∷ vals else vals)
unfolding build_object_key_set object_key_value
object_set-cons edges k keys vals (IsKey.edge a b c) h = h
object_set-cons objects k keys vals (IsKey.object a) h = rw h refl

object_set :
    (ops : List DbOperation)
    → AreReads ops
    → build_object_key_set (keys_on objects ops) ≡ returns (values_on objects ops)
unfolding build_object_key_set
object_set [] ok = refl
object_set (op ∷ ops) ok =
    object_set-cons op.table op.key (keys_on objects ops) (values_on objects ops) ok.0.0
      (object_set ops ok.1)

-- What the theorems rely on: a read of keys ends well with the rows found, none for no keys.
pub record AnswersReads (client : SpannerClient) : Type 0 where
  pub rows : DataTable → List (List ℤ) → client.State → List TimestampValue
  pub answers :
      (t : DataTable) (keys : List (List ℤ)) (s : client.State)
      → client.read t keys s ≡ (rows t keys s, none)
  pub none_asked : (t : DataTable) (s : client.State) → rows t [] s ≡ []

module _ (client : SpannerClient) (answered : AnswersReads client) where
  open answered use {rows, answers, none_asked}

  returned : {A : Type 0} (a b : A) → ◌≡◌ {A = Outcome A} (returns a) (returns b) → a ≡ b
  returned a b h = cc

  found :
      (t : DataTable) (keys : List (List ℤ)) (s : client.State)
      → (client.read t keys s).0 ≡ rows t keys s
  found t keys s = ap (λ r. r.0) (answers t keys s)

  ended :
      (t : DataTable) (keys : List (List ℤ)) (s : client.State) → (client.read t keys s).1 ≡ none
  ended t keys s = ap (λ r. r.1) (answers t keys s)

  read_objects_lem :
      (keys : List (List Field)) (vals : List (List ℤ)) (buffer : List TimestampValue)
      (s : client.State)
      → build_object_key_set keys ≡ returns vals
      → read_objects client keys buffer s ≡ returns (k_ok, buffer ++ rows objects vals s, s)
  unfolding read_objects build_object_key_set
  read_objects_lem [] vals buffer s h =
      rw (← returned [] vals h, none_asked objects s, append-nil buffer) refl
  read_objects_lem (k ∷ keys) vals buffer s h =
      rw (h, ended objects vals s, found objects vals s) refl

  read_edges_lem :
      (keys keys' : List (List Field)) (vals vals' : List (List ℤ)) (buffer : List TimestampValue)
      (s : client.State)
      → build_edge_key_set keys ≡ returns vals
      → build_object_key_set keys' ≡ returns vals'
      → read_edges client keys keys' buffer s
        ≡ returns (k_ok, buffer ++ rows edges vals s ++ rows objects vals' s, s)
  unfolding read_edges build_edge_key_set
  read_edges_lem [] keys' vals vals' buffer s h h' =
      rw (← returned [] vals h, none_asked edges s, append-nil buffer)
        (read_objects_lem keys' vals' buffer s h')
  read_edges_lem (k ∷ keys) keys' vals vals' buffer s h h' =
      rw (h, ended edges vals s, found edges vals s)
        (read_objects_lem keys' vals' (buffer ++ rows edges vals s) s h')

  -- A read transaction over well-formed keys, no two of one table with the same first id, succeeds
  -- where every read is answered, and appends the rows of all its edges and then those of all its
  -- objects, whatever the order of the operations.
  pub read_transaction_by_tables :
      (op : DbOperation) (ops : List DbOperation) (buffer : List TimestampValue) (s : client.State)
      → AreReads (op ∷ ops)
      → HasDistinctIds (op ∷ ops)
      → execute_transaction client (op ∷ ops) buffer true s
        ≡ returns (
          k_ok,
          buffer
              ++ rows edges (values_on edges (op ∷ ops)) s
              ++ rows objects (values_on objects (op ∷ ops)) s,
          s,
        )
  unfolding execute_transaction
  read_transaction_by_tables op ops buffer s ok distinct =
      let (ks, done, es, os) = collect_lem (op ∷ ops) no_keys ok distinct.0 distinct.1 in
      rw (done, es, os)
        (read_edges_lem (keys_on edges (op ∷ ops)) (keys_on objects (op ∷ ops))
          (values_on edges (op ∷ ops)) (values_on objects (op ∷ ops)) buffer s
          (edge_set (op ∷ ops) ok) (object_set (op ∷ ops) ok))
