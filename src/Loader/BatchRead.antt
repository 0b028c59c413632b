-- ===== src/Loader/BatchRead.antt =====
-- `WorkloadLoader::BatchRead` pages through the edges of its range of keys.
use taobench.Prelude.{
  ℕ, zero, suc, ◌<◌, ℤ, pos, ◌==ℤ◌, List, [], ◌∷◌, ◌++◌, length, length-append, take, map, true,
  if◌then◌else◌, some, ◌≡◌, refl, sym, ap, ◌∙◌, arith, append_assoc, append-nil, Bool-cases, inl,
  inr, ◌⊎◌, subst, ==ℤ→eq,
}
use taobench.Db.{
  edges, Field, k_ok, Edge, cast_edge_type-type_value, edge_key, edge_key_values, returns,
}
use taobench.Db.Incompatible.{key_of}
use taobench.Database.{Database}
use taobench.Keys.{get_shard_from_key}
use taobench.Loader.{ShardMap, emplace, Loader, add_rows, add_typed, back, read_on, batch_read}
use taobench.Loader.Order.{Key, key, select, IsSorted, select_from}

abbrev pub key_row : Key → List Field
key_row (id1, id2, type) = edge_key id1 id2 type

-- What the loader relies on: a batch read answers with the first rows, at most n of them, of the table's
-- edges strictly between the two keys, in the order of the keys, and leaves the table as it is.
pub record ReadsPages (db : Database) : Type 0 where
  pub table : db.State → List Edge
  pub sorted : (s : db.State) → IsSorted (table s)
  pub reads :
      (lo hi : Key) (n : ℕ) (s : db.State)
      → (s' : db.State) × (db.batch_read edges (key_row lo) (key_row hi) n [] s
          ≡ returns (k_ok, map key_of (take n (select lo hi (table s))), s'))
        × (table s' ≡ table s)

-- Every edge joins the list of its shard.
abbrev pub add_all : List Edge → ShardMap → ShardMap
add_all [] m = m
add_all (e ∷ es) m = add_all es (emplace (get_shard_from_key e.primary_key) e m)

-- The edges that the map has for a shard, and those of a list that belong to it.
abbrev pub edges_of : ℤ → ShardMap → List Edge
edges_of shard [] = []
edges_of shard ((s, es) ∷ m) = if s ==ℤ shard then es else edges_of shard m

abbrev pub of_shard : ℤ → List Edge → List Edge
of_shard shard [] = []
of_shard shard (e ∷ es) =
    let rest = of_shard shard es in
    if get_shard_from_key e.primary_key ==ℤ shard then e ∷ rest else rest

==ℤ-refl : (a : ℤ) → (a ==ℤ a) ≡ true
==ℤ-refl a = ground arith

-- A shard that has an entry.
first_entry :
    (shard t : ℤ) (e : Edge) (es : List Edge) (m : ShardMap)
    → edges_of shard (emplace t e ((t, es) ∷ m)) ≡ (
        if t ==ℤ shard
        then edges_of shard ((t, es) ∷ m) ++ e ∷ []
        else edges_of shard ((t, es) ∷ m))
unfolding emplace
first_entry shard t e es m =
    rw (==ℤ-refl t) (elim (Bool-cases (t ==ℤ shard)) [ inl p ↦ rw p refl | inr p ↦ rw p refl ])

edges_of-emplace :
    (shard s : ℤ) (e : Edge) (m : ShardMap)
    → edges_of shard (emplace s e m)
      ≡ (if s ==ℤ shard then edges_of shard m ++ e ∷ [] else edges_of shard m)
unfolding emplace
edges_of-emplace shard s e [] = refl
edges_of-emplace shard s e ((t, es) ∷ m) = elim (Bool-cases (t ==ℤ s)) [
  | inl same ↦
      subst
        (λ x. edges_of shard (emplace x e ((t, es) ∷ m)) ≡ (
          if x ==ℤ shard
          then edges_of shard ((t, es) ∷ m) ++ e ∷ []
          else edges_of shard ((t, es) ∷ m)))
        (==ℤ→eq t s same) (first_entry shard t e es m)
  | inr different ↦
      rw (different, edges_of-emplace shard s e m)
        (elim (Bool-cases (s ==ℤ shard)) [
          | inl p ↦ (elim (Bool-cases (t ==ℤ shard)) [
            | inl q ↦ absurd (cc (==ℤ→eq s shard p))
            | inr q ↦ rw (p, q) refl
          ])
          | inr p ↦ rw p refl
        ])
]

pub edges_of-add_all :
    (shard : ℤ) (es : List Edge) (m : ShardMap)
    → edges_of shard (add_all es m) ≡ edges_of shard m ++ of_shard shard es
edges_of-add_all shard [] m = sym (append-nil (edges_of shard m))
edges_of-add_all shard (e ∷ es) m =
    let s = get_shard_from_key e.primary_key in
    edges_of-add_all shard es (emplace s e m)
    ∙ rw (edges_of-emplace shard s e m) (elim (Bool-cases (s ==ℤ shard)) [
      | inl p ↦ rw p (append_assoc (edges_of shard m) (e ∷ []) (of_shard shard es))
      | inr p ↦ rw p refl
    ])

add_all-append :
    (xs ys : List Edge) (m : ShardMap) → add_all (xs ++ ys) m ≡ add_all ys (add_all xs m)
add_all-append [] ys m = refl
add_all-append (x ∷ xs) ys m = add_all-append xs ys (emplace (get_shard_from_key x.primary_key) x m)

-- A page is empty, or it has a last edge.
page :
    (n : ℕ) (es : List Edge)
    → (es ≡ [])
      ⊎ ((xs : List Edge) × (e : Edge) × (ys : List Edge) × (take (suc n) es ≡ xs ++ e ∷ [])
          × (es ≡ xs ++ e ∷ ys))
page n [] = inl refl
page zero (e ∷ es) = inr ([], e, es, refl, refl)
page (suc n) (e ∷ es) = elim (page n es) [
  | inl h ↦ inr ([], e, [], rw h refl, rw h refl)
  | inr (xs, d, ys, t, q) ↦ inr (e ∷ xs, d, ys, ap (◌∷◌ e) t, ap (◌∷◌ e) q)
]

module _ (db : Database) where
  add_rows-map :
      (es : List Edge) (m : ShardMap) → add_rows db (map key_of es) m ≡ returns (add_all es m)
  unfolding add_rows add_typed edge_key_values
  add_rows-map [] m = refl
  add_rows-map (e ∷ es) m =
      rw (cast_edge_type-type_value e.type)
        (add_rows-map es (emplace (get_shard_from_key e.primary_key) e m))

  back-snoc : (xs : List Edge) (e : Edge) → back db (map key_of (xs ++ e ∷ [])) ≡ some (key_of e)
  unfolding back
  back-snoc [] e = refl
  back-snoc (x ∷ []) e = refl
  back-snoc (x ∷ y ∷ xs) e = back-snoc (y ∷ xs) e

joined :
    {later : List Edge} (xs ys : List Edge) (e : Edge) (found : List Edge) (m : ShardMap)
    → found ≡ xs ++ e ∷ ys
    → later ≡ ys
    → add_all later (add_all (xs ++ e ∷ []) m) ≡ add_all found m
joined xs ys e found m all same =
    rw (same, all)
      (sym (add_all-append (xs ++ e ∷ []) ys m)
        ∙ ap (λ x. add_all x m) (append_assoc xs (e ∷ []) ys))

module _ {db : Database} (law : ReadsPages db) where
  -- The pages after the first, from the last edge that was read: with more fuel than there are edges
  -- left, all of them are read.
  read_on_lem :
      (fuel n : ℕ) (hi : Key) (last : Edge) (m : ShardMap) (s : db.State)
      → length (select (key last) hi (law.table s)) < fuel
      → (s' : db.State) × (read_on db fuel (suc n) (key_row hi) (key_of last) m s
          ≡ returns (some (add_all (select (key last) hi (law.table s)) m, s')))
        × (law.table s' ≡ law.table s)
  unfolding read_on edge_key_values
  read_on_lem zero n hi last m s h = absurd (omega arith)
  read_on_lem (suc fuel) n hi last m s h =
      let (s₁, done, same) = law.reads (key last) hi (suc n) s in
      let found = select (key last) hi (law.table s) in
      elim (page n found) [
        | inl none_left ↦ (s₁, rw (done, none_left) refl, same)
        | inr (xs, e, ys, first, all) ↦
            (let later : select (key e) hi (law.table s₁) ≡ ys =
                rw same (select_from (key last) hi (law.table s) xs ys e (law.sorted s) all) in
              let (s₂, rest, same') =
                read_on_lem fuel n hi e (add_all (xs ++ e ∷ []) m) s₁
                  (rw later (omega (arith, ap length all, length-append xs (e ∷ ys)))) in
              (
                s₂,
                rw (done, first, add_rows-map db (xs ++ e ∷ []) m, back-snoc db xs e, rest)
                    (ap (λ x. returns (some (x, s₂))) (joined xs ys e found m all later)),
                same' ∙ same,
              ))
      ]

  -- Every edge between the two keys has joined the map.
  pub batch_read_map :
      (fuel n : ℕ) (l : Loader) (s : db.State)
      → 0 < n
      → length (select (l.start_key, pos 0, pos 0) (l.end_key, pos 0, pos 0) (law.table s)) < fuel
      → (s' : db.State) × (batch_read db fuel n l s
          ≡ returns (
              some (
                0,
                record l {
                  shard_to_edges =
                      add_all
                        (select (l.start_key, pos 0, pos 0) (l.end_key, pos 0, pos 0) (law.table s))
                        l.shard_to_edges;
                },
                s',
              )))
        × (law.table s' ≡ law.table s)
  unfolding batch_read
  batch_read_map fuel zero l s p h = absurd (omega arith)
  batch_read_map fuel (suc n) l s p h =
      let lo : Key = (l.start_key, pos 0, pos 0) in
      let hi : Key = (l.end_key, pos 0, pos 0) in
      let (s₁, done, same) = law.reads lo hi (suc n) s in
      let m = l.shard_to_edges in
      let found = select lo hi (law.table s) in
      elim (page n found) [
        | inl none_there ↦ (s₁, rw (done, none_there) refl, same)
        | inr (xs, e, ys, first, all) ↦
            (let later : select (key e) hi (law.table s₁) ≡ ys =
                rw same (select_from lo hi (law.table s) xs ys e (law.sorted s) all) in
              let (s₂, rest, same') =
                read_on_lem fuel n hi e (add_all (xs ++ e ∷ []) m) s₁
                  (rw later (omega (arith, ap length all, length-append xs (e ∷ ys)))) in
              (
                s₂,
                rw (done, first, add_rows-map db (xs ++ e ∷ []) m, back-snoc db xs e, rest)
                    (ap (λ x. returns (some (0, record l { shard_to_edges = x }, s₂)))
                      (joined xs ys e found m all later)),
                same' ∙ same,
              ))
      ]

  -- Over a database that reads pages in order, a batch read with pages of at least one row, and
  -- with more fuel than there are edges strictly between its two keys, returns that no operation
  -- has failed, and leaves the table as it is. It has added to each shard of the map exactly the
  -- edges of the table between the keys whose first id the shard generated, in the order of the
  -- keys, whatever the size of a page.
  pub batch_read_lem :
      (fuel n : ℕ) (l : Loader) (s : db.State)
      → 0 < n
      → length (select (l.start_key, pos 0, pos 0) (l.end_key, pos 0, pos 0) (law.table s)) < fuel
      → (m : ShardMap) × (s' : db.State) × (batch_read db fuel n l s
          ≡ returns (some (0, record l { shard_to_edges = m }, s')))
        × (law.table s' ≡ law.table s)
        × ((shard : ℤ)
            → edges_of shard m
              ≡ edges_of shard l.shard_to_edges
                ++ of_shard shard
                    (select (l.start_key, pos 0, pos 0) (l.end_key, pos 0, pos 0) (law.table s)))
  batch_read_lem fuel n l s p h =
      let lo : Key = (l.start_key, pos 0, pos 0) in
      let hi : Key = (l.end_key, pos 0, pos 0) in
      let (s', done, same) = batch_read_map fuel n l s p h in
      (
        _,
        s',
        done,
        same,
        λ shard. edges_of-add_all shard (select lo hi (law.table s)) l.shard_to_edges,
      )
