-- ===== src/Workload/Loaded.antt =====
-- The edges of all loaders, combined.
use taobench.Prelude.{
  ℕ, ◌+◌, ℤ, ◌==ℤ◌, List, [], ◌∷◌, ◌++◌, length, length-append, if◌then◌else◌, ◌≡◌, refl, sym, ◌∙◌,
  arith, append_assoc, append-nil, Bool-cases, inl, inr, subst, ==ℤ→eq, ==ℤ_refl,
}
use taobench.Db.{Edge}
use taobench.Loader.{ShardMap}
use taobench.Loader.BatchRead.{edges_of}
use taobench.Workload.{add_entry, add_map, combine_from, combine_key_maps, get_num_loaded_edges}

-- The edges that the entries of a map, and of several maps, have for a shard.
abbrev pub gathered : ℤ → ShardMap → List Edge
gathered shard [] = []
gathered shard ((s, es) ∷ m) =
    let rest = gathered shard m in if s ==ℤ shard then es ++ rest else rest

abbrev pub all_gathered : ℤ → List ShardMap → List Edge
all_gathered shard [] = []
all_gathered shard (l ∷ ls) = gathered shard l ++ all_gathered shard ls

abbrev pub total : List ShardMap → ℕ
total [] = 0
total (l ∷ ls) = get_num_loaded_edges l + total ls

with_more :
    (shard t : ℤ) (fs es : List Edge) (m : ShardMap)
    → edges_of shard (add_entry t es ((t, fs) ∷ m))
      ≡ (if t ==ℤ shard then fs ++ es else edges_of shard m)
unfolding add_entry
with_more shard t fs es m = rw (==ℤ_refl t) refl

edges_of-add_entry :
    (shard s : ℤ) (es : List Edge) (m : ShardMap)
    → edges_of shard (add_entry s es m) ≡ edges_of shard m ++ (if s ==ℤ shard then es else [])
unfolding add_entry
edges_of-add_entry shard s es [] = refl
edges_of-add_entry shard s es ((t, fs) ∷ m) = elim (Bool-cases (t ==ℤ s)) [
  | inl same ↦
      subst
        (λ x.
          edges_of shard (add_entry x es ((t, fs) ∷ m))
          ≡ edges_of shard ((t, fs) ∷ m) ++ (if x ==ℤ shard then es else []))
        (==ℤ→eq t s same)
        (with_more shard t fs es m ∙ (elim (Bool-cases (t ==ℤ shard)) [
          | inl p ↦ rw p refl
          | inr p ↦ rw p (sym (append-nil (edges_of shard m)))
        ]))
  | inr different ↦
      rw (different, edges_of-add_entry shard s es m)
        (elim (Bool-cases (s ==ℤ shard)) [
          | inl p ↦ (elim (Bool-cases (t ==ℤ shard)) [
            | inl q ↦ absurd (cc (==ℤ→eq s shard p))
            | inr q ↦ rw (p, q) refl
          ])
          | inr p ↦ (elim (Bool-cases (t ==ℤ shard)) [
            | inl q ↦ rw (p, q) (sym (append-nil fs))
            | inr q ↦ rw (p, q) refl
          ])
        ])
]

edges_of-add_map :
    (shard : ℤ) (entries m : ShardMap)
    → edges_of shard (add_map entries m) ≡ edges_of shard m ++ gathered shard entries
unfolding add_map
edges_of-add_map shard [] m = sym (append-nil (edges_of shard m))
edges_of-add_map shard ((s, es) ∷ entries) m =
    edges_of-add_map shard entries (add_entry s es m)
    ∙ rw (edges_of-add_entry shard s es m) (elim (Bool-cases (s ==ℤ shard)) [
      | inl p ↦ rw p (append_assoc (edges_of shard m) es (gathered shard entries))
      | inr p ↦ rw (p, append-nil (edges_of shard m)) refl
    ])

edges_of-combine_from :
    (shard : ℤ) (ls : List ShardMap) (m : ShardMap)
    → edges_of shard (combine_from ls m) ≡ edges_of shard m ++ all_gathered shard ls
unfolding combine_from
edges_of-combine_from shard [] m = sym (append-nil (edges_of shard m))
edges_of-combine_from shard (l ∷ ls) m =
    edges_of-combine_from shard ls (add_map l m)
    ∙ rw (edges_of-add_map shard l m)
        (append_assoc (edges_of shard m) (gathered shard l) (all_gathered shard ls))

num-add_entry :
    (s : ℤ) (es : List Edge) (m : ShardMap)
    → get_num_loaded_edges (add_entry s es m) ≡ length es + get_num_loaded_edges m
unfolding add_entry get_num_loaded_edges
num-add_entry s es [] = refl
num-add_entry s es ((t, fs) ∷ m) = elim (Bool-cases (t ==ℤ s)) [
  | inl same ↦ rw same (omega (arith, length-append fs es))
  | inr different ↦ rw different (omega (arith, num-add_entry s es m))
]

num-add_map :
    (entries m : ShardMap)
    → get_num_loaded_edges (add_map entries m)
      ≡ get_num_loaded_edges entries + get_num_loaded_edges m
unfolding add_map get_num_loaded_edges
num-add_map [] m = omega arith
num-add_map ((s, es) ∷ entries) m =
    omega (arith, num-add_map entries (add_entry s es m), num-add_entry s es m)

num-combine_from :
    (ls : List ShardMap) (m : ShardMap)
    → get_num_loaded_edges (combine_from ls m) ≡ get_num_loaded_edges m + total ls
unfolding combine_from
num-combine_from [] m = omega arith
num-combine_from (l ∷ ls) m = omega (arith, num-combine_from ls (add_map l m), num-add_map l m)

-- For every shard the combined map has exactly the edges that the maps of the loaders have for it, in the
-- order of the loaders, and it has as many edges as all of them together.
pub combine_key_maps_lem :
    (shard : ℤ) (ls : List ShardMap)
    → (edges_of shard (combine_key_maps ls) ≡ all_gathered shard ls)
      × (get_num_loaded_edges (combine_key_maps ls) ≡ total ls)
unfolding combine_key_maps get_num_loaded_edges
combine_key_maps_lem shard ls =
    (edges_of-combine_from shard ls [], omega (arith, num-combine_from ls []))
