-- ===== src/Loader/Writes.antt =====
-- `WriteToBuffers` over whole calls.
use taobench.Prelude.{
  ℕ, ◌+◌, ◌≤◌, ltb, ℤ, List, [], ◌∷◌, ◌++◌, length, length-append, true, false, ◌≡◌, refl, ap, ◌∙◌,
  arith, append_assoc, Bool-cases, inl, inr, ltb→le, All-append,
}
use taobench.Db.{
  edges, objects, Field, TimestampValue, EdgeType, type_value, edge_key, object_key, returns,
}
use taobench.Database.{Database, IsKey}
use taobench.Loader.{Loader, buffer_row, write_to_buffers}
use taobench.Loader.Buffers.{
  Row, rows_of, rows_of-snoc, InsertsBatches, IsBuffered, edges_so_far, objects_so_far,
  edges_flushed, objects_flushed,
}

length-snoc {ℓ} : {A : Type ℓ} (xs : List A) (x : A) → length (xs ++ x ∷ []) ≡ length xs + 1
length-snoc xs x = length-append xs (x ∷ [])

-- A buffer that is flushed when it holds more than a batch holds no more than a batch afterwards.
bounded :
    (n : ℕ) (before after : List TimestampValue)
    → (ltb n (length before) ≡ true → after ≡ [])
    → (ltb n (length before) ≡ false → after ≡ before)
    → length after ≤ n
bounded n before after full room = elim (Bool-cases (ltb n (length before))) [
  | inl e ↦ rw (full e) (omega arith)
  | inr e ↦ rw (room e) (ltb→le n (length before) e)
]

one_more :
    (t : List Row) (ks : List (List Field)) (vs : List TimestampValue) (k : List Field)
    (v : TimestampValue)
    → length ks ≡ length vs
    → t ++ rows_of (ks ++ k ∷ []) (vs ++ v ∷ []) ≡ (t ++ rows_of ks vs) ++ (k, v) ∷ []
one_more t ks vs k v h =
    rw (rows_of-snoc ks vs k v h, append_assoc t (rows_of ks vs) ((k, v) ∷ [])) refl

two_more :
    (t : List Row) (ks : List (List Field)) (vs : List TimestampValue) (k j : List Field)
    (v : TimestampValue)
    → length ks ≡ length vs
    → t ++ rows_of ((ks ++ k ∷ []) ++ j ∷ []) ((vs ++ v ∷ []) ++ v ∷ [])
      ≡ (t ++ rows_of ks vs) ++ (k, v) ∷ (j, v) ∷ []
two_more t ks vs k j v h =
    one_more t (ks ++ k ∷ []) (vs ++ v ∷ []) j v
      (omega (arith, length-snoc {0} ks k, length-snoc {0} vs v))
    ∙ ap (λ x. x ++ (j, v) ∷ []) (one_more t ks vs k v h)
    ∙ append_assoc (t ++ rows_of ks vs) ((k, v) ∷ []) ((j, v) ∷ [])

module _ {db : Database} (law : InsertsBatches db) where
  -- Over a database whose batch inserts of well-formed keys return, a call returns and keeps the buffers within a batch. If no flush has failed, the table and the
  -- buffer of the edges hold together what they held and the new edge's row, and those of the objects
  -- what they held and a row for each end of the edge, in this order.
  pub write_to_buffers_lem :
      (shard primary remote : ℤ) (type : EdgeType) (tv : TimestampValue) (n : ℕ) (l : Loader)
      (s : db.State)
      → IsBuffered n l
      → (f : ℕ) × (l' : Loader) × (s' : db.State) × (write_to_buffers db shard primary remote type
            tv n l s
          ≡ returns (f, l', s'))
        × IsBuffered n l'
        × (f ≡ 0
            → (edges_so_far law l' s'
                ≡ edges_so_far law l s ++ (edge_key primary remote (type_value type), tv) ∷ [])
              × (objects_so_far law l' s'
                  ≡ objects_so_far law l s
                    ++ (object_key primary, tv) ∷ (object_key remote, tv) ∷ []))
  unfolding write_to_buffers buffer_row
  write_to_buffers_lem shard primary remote type tv n l s ok =
      let key = edge_key primary remote (type_value type) in
      let p = object_key primary in
      let r = object_key remote in
      let l₀ = buffer_row db shard primary remote type tv l in
      let (f₁, l₁, s₁, done₁, pairs₁, keys₁, full₁, room₁, kept₁, ok₁, ov₁, table₁) =
        edges_flushed law (ltb n (length l₀.edge_value_buffer)) l₀ s
          (omega (
            arith,
            length-snoc {0} l.edge_key_buffer key,
            length-snoc {0} l.edge_value_buffer tv,
            ok.edge_pairs,
          ))
          (All-append _ l.edge_key_buffer _ ok.edge_keys (IsKey.edge _ _ _, tt)) in
      let (f₂, l₂, s₂, done₂, pairs₂, keys₂, full₂, room₂, kept₂, ek₂, ev₂, table₂) =
        objects_flushed law (ltb n (length l₁.object_value_buffer)) l₁ s₁
          (rw (ok₁, ov₁)
            (omega (
              arith,
              length-snoc {0} l.object_key_buffer p,
              length-snoc {0} (l.object_key_buffer ++ p ∷ []) r,
              length-snoc {0} l.object_value_buffer tv,
              length-snoc {0} (l.object_value_buffer ++ tv ∷ []) tv,
              ok.object_pairs,
            )))
          (rw ok₁ (
            All-append _ (l.object_key_buffer ++ p ∷ []) _
              (All-append _ l.object_key_buffer _ ok.object_keys (IsKey.object _, tt))
              (IsKey.object _, tt))) in
      (
        f₁ + f₂,
        l₂,
        s₂,
        rw (done₁, done₂) refl,
        record {
          edge_pairs = rw (ek₂, ev₂) pairs₁;
          object_pairs = pairs₂;
          edge_keys = rw ek₂ keys₁;
          object_keys = keys₂;
          edge_bound = rw ev₂ (bounded n l₀.edge_value_buffer l₁.edge_value_buffer full₁ room₁);
          object_bound = bounded n l₁.object_value_buffer l₂.object_value_buffer full₂ room₂;
        },
        (λ z. (
          rw (ek₂, ev₂, table₂)
              (kept₁ (omega arith)
                ∙ one_more (law.table edges s) l.edge_key_buffer l.edge_value_buffer key tv
                    ok.edge_pairs),
          kept₂ (omega arith)
              ∙ rw (ok₁, ov₁, table₁)
                  (two_more (law.table objects s) l.object_key_buffer l.object_value_buffer p r tv
                    ok.object_pairs),
        )),
      )
