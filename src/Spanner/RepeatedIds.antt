-- ===== src/Spanner/RepeatedIds.antt =====
-- A read transaction of `SpannerDB` over two edges of one node: the second key is put with the keys of
-- the objects.
use taobench.Prelude.{
  ℤ, List, [], ◌∷◌, ◌++◌, none, true, All, ◌≡◌, refl, ==ℤ_refl, Bool-cases, inl, inr,
}
use taobench.Db.{
  DataTable, edges, objects, Field, TimestampValue, DbOperation, Operation, returns, faults, Fault,
  edge_key, edge_key_values, object_key_value,
}
use taobench.Database.{IsKey, AreReads}
use taobench.Spanner.Client.{SpannerClient}
use taobench.Spanner.Driver.{build_edge_key_set, build_object_key_set}
use taobench.Spanner.Transactions.{
  ReadKeys, is_among, add_key, collect_keys, read_objects, read_edges, execute_transaction,
}

-- The keys of the edges are edge keys, and the keys of the objects begin with that of an edge.
record IsMisplaced (k : List Field) (ks : ReadKeys) : Type 0 where
  well_formed : All (IsKey edges) ks.edge_keys
  misplaced : (rest : List (List Field)) × (ks.object_keys ≡ k ∷ rest)

All-snoc :
    (keys : List (List Field)) (k : List Field)
    → All (IsKey edges) keys
    → IsKey edges k
    → All (IsKey edges) (keys ++ k ∷ [])
All-snoc [] k ok h = (h, tt)
All-snoc (k' ∷ keys) k ok h = (ok.0, All-snoc keys k ok.1 h)

add_key-IsMisplaced :
    (k : List Field) (t : DataTable) (j : List Field) (id : ℤ) (ks : ReadKeys)
    → IsKey t j
    → IsMisplaced k ks
    → IsMisplaced k (add_key t j id ks)
unfolding add_key
add_key-IsMisplaced k edges j id ks key m = elim (Bool-cases (is_among id ks.edge_ids)) [
  | inl in_edges ↦ (elim (Bool-cases (is_among id ks.object_ids)) [
    | inl in_objects ↦ rw (in_edges, in_objects) m
    | inr new ↦
        rw (in_edges, new)
          (record {
            well_formed = m.well_formed;
            misplaced = (m.misplaced.0 ++ j ∷ [], rw (m.misplaced.1) refl);
          })
  ])
  | inr new ↦
      rw new (record {
        well_formed = All-snoc ks.edge_keys j m.well_formed key;
        misplaced = m.misplaced;
      })
]
add_key-IsMisplaced k objects j id ks key m = elim (Bool-cases (is_among id ks.object_ids)) [
  | inl in_objects ↦ rw in_objects m
  | inr new ↦ rw new (record {
    well_formed = m.well_formed;
    misplaced = (m.misplaced.0 ++ j ∷ [], rw (m.misplaced.1) refl);
  })
]

collect-IsMisplaced-cons :
    (k : List Field) (t : DataTable) (j : List Field) (tv : TimestampValue) (o : Operation)
    (ops : List DbOperation) (ks : ReadKeys)
    → IsKey t j
    → o ≡ Operation.read
    → ((id : ℤ)
        → (ks' : ReadKeys) × (collect_keys ops (add_key t j id ks) ≡ returns ks')
          × IsMisplaced k ks')
    → (ks' : ReadKeys) × (collect_keys
          (record { table = t; key = j; time_and_value = tv; operation = o } ∷ ops)
          ks
        ≡ returns ks')
      × IsMisplaced k ks'
unfolding collect_keys
collect-IsMisplaced-cons k edges j tv o ops ks (IsKey.edge a b c) r rest =
    let (ks', done, m) = rest a in (ks', rw r done, m)
collect-IsMisplaced-cons k objects j tv o ops ks (IsKey.object a) r rest =
    let (ks', done, m) = rest a in (ks', rw r done, m)

collect-IsMisplaced :
    (k : List Field) (ops : List DbOperation) (ks : ReadKeys)
    → AreReads ops
    → IsMisplaced k ks
    → (ks' : ReadKeys) × (collect_keys ops ks ≡ returns ks') × IsMisplaced k ks'
unfolding collect_keys
collect-IsMisplaced k [] ks ok m = (ks, refl, m)
collect-IsMisplaced k (op ∷ ops) ks ok m =
    collect-IsMisplaced-cons k op.table op.key op.time_and_value op.operation ops ks ok.0.0 ok.0.1
      (λ id.
        collect-IsMisplaced k ops (add_key op.table op.key id ks) ok.1
          (add_key-IsMisplaced k op.table op.key id ks ok.0.0 m))

edge_set-cons :
    (t : DataTable) (k : List Field) (keys : List (List Field)) (vals : List (List ℤ))
    → t ≡ edges
    → IsKey t k
    → build_edge_key_set keys ≡ returns vals
    → (vals' : List (List ℤ)) × (build_edge_key_set (k ∷ keys) ≡ returns vals')
unfolding build_edge_key_set edge_key_values
edge_set-cons edges k keys vals e (IsKey.edge a b c) h = ((a ∷ b ∷ c ∷ []) ∷ vals, rw h refl)
edge_set-cons objects k keys vals e (IsKey.object a) h = absurd (cc)

edge_set :
    (keys : List (List Field))
    → All (IsKey edges) keys
    → (vals : List (List ℤ)) × (build_edge_key_set keys ≡ returns vals)
unfolding build_edge_key_set
edge_set [] ok = ([], refl)
edge_set (k ∷ keys) ok =
    let (vals, h) = edge_set keys ok.1 in edge_set-cons edges k keys vals refl ok.0 h

abbrev pub edge_read : ℤ → ℤ → ℤ → DbOperation
edge_read id1 id2 type = record {
  table = edges;
  key = edge_key id1 id2 type;
  time_and_value = record { timestamp = ℤ.pos 0; value = [] };
  operation = Operation.read;
}

module _ (client : SpannerClient) where
  read_misplaced :
      (a b c : ℤ) (keys keys' rest : List (List Field)) (buffer : List TimestampValue)
      (s : client.State)
      → ((vals : List (List ℤ)) → (client.read edges vals s).1 ≡ none)
      → All (IsKey edges) keys
      → keys' ≡ edge_key a b c ∷ rest
      → read_edges client keys keys' buffer s ≡ faults Fault.assertion
  unfolding read_edges read_objects build_object_key_set object_key_value
  read_misplaced a b c [] keys' rest buffer s ends ok h = rw h refl
  read_misplaced a b c (j ∷ keys) keys' rest buffer s ends ok h =
      let (vals, built) = edge_set (j ∷ keys) ok in rw (built, ends vals, h) refl

  -- A read transaction that begins with two edges of one node fails an assertion, whatever well-formed
  -- reads follow and whatever the table holds, where the read of the edges itself does not fail.
  pub repeated_id_faults :
      (id1 a b type type' : ℤ) (ops : List DbOperation) (buffer : List TimestampValue)
      (s : client.State)
      → ((vals : List (List ℤ)) → (client.read edges vals s).1 ≡ none)
      → AreReads ops
      → execute_transaction client
          (edge_read id1 a type ∷ edge_read id1 b type' ∷ ops)
          buffer
          true
          s
        ≡ faults Fault.assertion
  unfolding execute_transaction
  repeated_id_faults id1 a b type type' ops buffer s ends ok =
      let k = edge_key id1 b type' in
      let ks : ReadKeys = record {
        edge_keys = edge_key id1 a type ∷ [];
        object_keys = k ∷ [];
        edge_ids = id1 ∷ [];
        object_ids = id1 ∷ [];
      } in
      let m : IsMisplaced k ks = record {
        well_formed = (IsKey.edge id1 a type, tt);
        misplaced = ([], refl);
      } in
      let (ks', done, m') = collect-IsMisplaced k ops ks ok m in
      rw (==ℤ_refl id1, done)
        (read_misplaced id1 b type' ks'.edge_keys ks'.object_keys m'.misplaced.0 buffer s ends
          m'.well_formed m'.misplaced.1)
