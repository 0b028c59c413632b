-- ===== src/ReadPhase/Maps.antt =====
-- The maps of the loaders have one entry for a shard, and count their edges.
use taobench.Prelude.{
  suc, ◌+◌, ℤ, ◌==ℤ◌, ==ℤ→eq, false, List, [], ◌∷◌, ◌++◌, All, ◌≡◌, refl, ap, ◌∙◌, arith, length,
  length-append, Bool-cases, inl, inr, append-nil, subst,
}
use taobench.Db.{Edge}
use taobench.Keys.{get_shard_from_key}
use taobench.Loader.{ShardMap, emplace}
use taobench.Loader.BatchRead.{add_all, edges_of, of_shard, edges_of-add_all}
use taobench.Workload.{get_num_loaded_edges}
use taobench.Workload.Loaded.{gathered}

abbrev IsAbsent : ℤ → ShardMap → Type 0
IsAbsent s = All (λ entry. (entry.0 ==ℤ s) ≡ false)

abbrev pub IsDistinct : ShardMap → Type 0
IsDistinct [] = Unit
IsDistinct ((s, es) ∷ m) = IsAbsent s m × IsDistinct m

emplace-IsAbsent :
    (t s : ℤ) (e : Edge) (m : ShardMap)
    → (s ==ℤ t) ≡ false
    → IsAbsent t m
    → IsAbsent t (emplace s e m)
unfolding emplace
emplace-IsAbsent t s e [] ne h = (ne, tt)
emplace-IsAbsent t s e ((u, es) ∷ m) ne (h, hs) = elim (Bool-cases (u ==ℤ s)) [
  | inl p ↦ rw p (h, hs)
  | inr p ↦ rw p (h, emplace-IsAbsent t s e m ne hs)
]

emplace-IsDistinct : (s : ℤ) (e : Edge) (m : ShardMap) → IsDistinct m → IsDistinct (emplace s e m)
unfolding emplace
emplace-IsDistinct s e [] h = (tt, tt)
emplace-IsDistinct s e ((u, es) ∷ m) (a, d) = elim (Bool-cases (u ==ℤ s)) [
  | inl p ↦ rw p (a, d)
  | inr p ↦ rw p (emplace-IsAbsent u s e m (flipped u s p) a, emplace-IsDistinct s e m d)
]
  where
    flipped : (u s : ℤ) → (u ==ℤ s) ≡ false → (s ==ℤ u) ≡ false
    flipped u s p = ground arith

add_all-IsDistinct : (es : List Edge) (m : ShardMap) → IsDistinct m → IsDistinct (add_all es m)
add_all-IsDistinct [] m d = d
add_all-IsDistinct (e ∷ es) m d =
    add_all-IsDistinct es (emplace (get_shard_from_key e.primary_key) e m)
      (emplace-IsDistinct (get_shard_from_key e.primary_key) e m d)

gathered-absent : (shard : ℤ) (m : ShardMap) → IsAbsent shard m → gathered shard m ≡ []
gathered-absent shard [] h = refl
gathered-absent shard ((s, es) ∷ m) (h, hs) = rw h (gathered-absent shard m hs)

-- With one entry for a shard, that entry has all its edges.
gathered-edges_of : (shard : ℤ) (m : ShardMap) → IsDistinct m → gathered shard m ≡ edges_of shard m
gathered-edges_of shard [] d = refl
gathered-edges_of shard ((s, es) ∷ m) (a, d) = elim (Bool-cases (s ==ℤ shard)) [
  | inl p ↦ rw p (
      ap (λ x. es ++ x) (gathered-absent shard m (subst (λ x. IsAbsent x m) (==ℤ→eq s shard p) a))
      ∙ append-nil es)
  | inr p ↦ rw p (gathered-edges_of shard m d)
]

-- The map that a loader has made from nothing.
pub gathered-add_all :
    (shard : ℤ) (es : List Edge) → gathered shard (add_all es []) ≡ of_shard shard es
gathered-add_all shard es =
    gathered-edges_of shard (add_all es []) (add_all-IsDistinct es [] tt)
    ∙ edges_of-add_all shard es []

num-emplace :
    (s : ℤ) (e : Edge) (m : ShardMap)
    → get_num_loaded_edges (emplace s e m) ≡ suc (get_num_loaded_edges m)
unfolding emplace get_num_loaded_edges
num-emplace s e [] = refl
num-emplace s e ((u, es) ∷ m) = elim (Bool-cases (u ==ℤ s)) [
  | inl p ↦ rw p (omega (arith, length-append es (e ∷ [])))
  | inr p ↦ rw p (omega (arith, num-emplace s e m))
]

pub num-add_all :
    (es : List Edge) (m : ShardMap)
    → get_num_loaded_edges (add_all es m) ≡ length es + get_num_loaded_edges m
num-add_all [] m = omega arith
num-add_all (e ∷ es) m = omega (
  arith,
  num-add_all es (emplace (get_shard_from_key e.primary_key) e m),
  num-emplace (get_shard_from_key e.primary_key) e m,
)

pub of_shard-append :
    (shard : ℤ) (xs ys : List Edge)
    → of_shard shard (xs ++ ys) ≡ of_shard shard xs ++ of_shard shard ys
of_shard-append shard [] ys = refl
of_shard-append shard (x ∷ xs) ys = ground (arith, of_shard-append shard xs ys)
