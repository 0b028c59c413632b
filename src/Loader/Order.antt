-- ===== src/Loader/Order.antt =====
-- The order (id1, id2, type) in which the batch read walks the edges, and the edges between two keys of
-- a sorted table.
use taobench.Prelude.{
  ℤ, ltb_ℤ, ◌==ℤ◌, Bool, true, false, ◌&&◌, ◌||◌, if◌then◌else◌, List, [], ◌∷◌, ◌++◌, All, ◌≡◌,
  refl, sym, ◌∙◌, arith, Bool-cases, inl, inr, ◌⊎◌, ◌<ℤ◌, subst, ==ℤ→eq, ==ℤ_iff, ltb_ℤ→lt,
}
use taobench.Db.{Edge, type_value}

abbrev pub Key : Type 0
Key = ℤ × ℤ × ℤ

abbrev pub key : Edge → Key
key e = (e.primary_key, e.remote_key, type_value e.type)

unfoldable pub key_lt : Key → Key → Bool
key_lt (a, b, c) (a', b', c') =
    ltb_ℤ a a' || ((a ==ℤ a') && (ltb_ℤ b b' || ((b ==ℤ b') && ltb_ℤ c c')))

pub key_lt_irrefl : (k : Key) → key_lt k k ≡ false
unfolding key_lt
key_lt_irrefl (a, b, c) = ground arith

-- The order as one of three cases.
abbrev Less : Key → Key → Type 0
Less (a, b, c) (a', b', c') =
    (a <ℤ a') ⊎ (((a ≡ a') × (b <ℤ b')) ⊎ ((a ≡ a') × (b ≡ b') × (c <ℤ c')))

ltb_ℤ_of : (a b : ℤ) → a <ℤ b → ltb_ℤ a b ≡ true
ltb_ℤ_of a b h = ground arith

key_lt→Less : (j k : Key) → key_lt j k ≡ true → Less j k
unfolding key_lt
key_lt→Less (a, b, c) (a', b', c') h =
    grind (arith, ==ℤ→eq a a', ==ℤ→eq b b', ltb_ℤ→lt a a', ltb_ℤ→lt b b', ltb_ℤ→lt c c')

Less→key_lt : (j k : Key) → Less j k → key_lt j k ≡ true
unfolding key_lt
Less→key_lt (a, b, c) (a', b', c') (inl h) = rw (ltb_ℤ_of a a' h) refl
Less→key_lt (a, b, c) (a', b', c') (inr (inl (p, h))) =
    ground (arith, ==ℤ_iff a a', ltb_ℤ_of b b' h)
Less→key_lt (a, b, c) (a', b', c') (inr (inr (p, q, h))) =
    ground (arith, ==ℤ_iff a a', ==ℤ_iff b b', ltb_ℤ_of c c' h)

<ℤ-trans : (a b c : ℤ) → a <ℤ b → b <ℤ c → a <ℤ c
<ℤ-trans a b c h k = omega arith

Less-trans : (j k l : Key) → Less j k → Less k l → Less j l
Less-trans (a, b, c) (a', b', c') (a'', b'', c'') (inl h) (inl k) = inl (<ℤ-trans a a' a'' h k)
Less-trans (a, b, c) (a', b', c') (a'', b'', c'') (inl h) (inr (inl (p, k))) =
    inl (subst (λ x. a <ℤ x) p h)
Less-trans (a, b, c) (a', b', c') (a'', b'', c'') (inl h) (inr (inr (p, q, k))) =
    inl (subst (λ x. a <ℤ x) p h)
Less-trans (a, b, c) (a', b', c') (a'', b'', c'') (inr (inl (p, h))) (inl k) =
    inl (subst (λ x. x <ℤ a'') (sym p) k)
Less-trans (a, b, c) (a', b', c') (a'', b'', c'') (inr (inl (p, h))) (inr (inl (q, k))) =
    inr (inl (p ∙ q, <ℤ-trans b b' b'' h k))
Less-trans (a, b, c) (a', b', c') (a'', b'', c'') (inr (inl (p, h))) (inr (inr (q, r, k))) =
    inr (inl (p ∙ q, subst (λ x. b <ℤ x) r h))
Less-trans (a, b, c) (a', b', c') (a'', b'', c'') (inr (inr (p, q, h))) (inl k) =
    inl (subst (λ x. x <ℤ a'') (sym p) k)
Less-trans (a, b, c) (a', b', c') (a'', b'', c'') (inr (inr (p, q, h))) (inr (inl (r, k))) =
    inr (inl (p ∙ r, subst (λ x. x <ℤ b'') (sym q) k))
Less-trans (a, b, c) (a', b', c') (a'', b'', c'') (inr (inr (p, q, h))) (inr (inr (r, t, k))) =
    inr (inr (p ∙ r, q ∙ t, <ℤ-trans c c' c'' h k))

pub key_lt_trans : (j k l : Key) → key_lt j k ≡ true → key_lt k l ≡ true → key_lt j l ≡ true
key_lt_trans j k l h i = Less→key_lt j l (Less-trans j k l (key_lt→Less j k h) (key_lt→Less k l i))

pub key_lt_asymm : (j k : Key) → key_lt j k ≡ true → key_lt k j ≡ false
key_lt_asymm j k h = elim (Bool-cases (key_lt k j)) [
  | inl e ↦ absurd (cc (key_lt_trans j k j h e, key_lt_irrefl j))
  | inr e ↦ e
]

-- Strictly between the two keys.
abbrev pub within : Key → Key → Edge → Bool
within lo hi e = key_lt lo (key e) && key_lt (key e) hi

unfoldable pub select : Key → Key → List Edge → List Edge
select lo hi [] = []
select lo hi (e ∷ es) = let rest = select lo hi es in if within lo hi e then e ∷ rest else rest

-- Every edge is followed by greater ones only.
abbrev pub IsSorted : List Edge → Type 0
IsSorted [] = Unit
IsSorted (e ∷ es) = All (λ f. key_lt (key e) (key f) ≡ true) es × IsSorted es

-- All edges after `d` lie above whatever lies below `d`.
select_after :
    (lo hi : Key) (d : Edge) (es : List Edge)
    → All (λ f. key_lt (key d) (key f) ≡ true) es
    → key_lt lo (key d) ≡ true
    → select (key d) hi es ≡ select lo hi es
unfolding select
select_after lo hi d [] h p = refl
select_after lo hi d (e ∷ es) h p =
    rw (h.0, key_lt_trans lo (key d) (key e) p h.0, select_after lo hi d es h.1 p) refl

-- An edge that is found stands first, or among those that are found after the first.
at_or_after :
    (P : Edge → Type 0) (d e : Edge) (rest xs ys : List Edge)
    → P d
    → ((zs : List Edge) → rest ≡ zs ++ e ∷ ys → P e)
    → d ∷ rest ≡ xs ++ e ∷ ys
    → P e
at_or_after P d e rest [] ys p later q = subst P (cc) p
at_or_after P d e rest (x ∷ xs) ys p later q = later xs (cc)

found_above :
    (P : Edge → Type 0) (lo hi : Key) (es xs ys : List Edge) (e : Edge)
    → All P es
    → select lo hi es ≡ xs ++ e ∷ ys
    → P e
unfolding select
found_above P lo hi [] [] ys e h q = absurd (cc)
found_above P lo hi [] (x ∷ xs) ys e h q = absurd (cc)
found_above P lo hi (d ∷ ds) xs ys e h q = elim (Bool-cases (within lo hi d)) [
  | inl is_in ↦
      at_or_after P d e (select lo hi ds) xs ys h.0 (λ zs. found_above P lo hi ds zs ys e h.1)
        (rw is_in at q)
  | inr not_in ↦ found_above P lo hi ds xs ys e h.1 (rw not_in at q)
]

not_within : (lo hi : Key) (d : Edge) → key_lt (key d) lo ≡ true → within lo hi d ≡ false
not_within lo hi d h = rw (key_lt_asymm (key d) lo h) refl

lo_below : (lo hi : Key) (d : Edge) → within lo hi d ≡ true → key_lt lo (key d) ≡ true
lo_below lo hi d h = ground arith

first_or_later :
    (lo hi : Key) (d e : Edge) (ds xs ys : List Edge)
    → All (λ f. key_lt (key d) (key f) ≡ true) ds
    → key_lt lo (key d) ≡ true
    → ((zs : List Edge) → select lo hi ds ≡ zs ++ e ∷ ys → select (key e) hi ds ≡ ys)
    → d ∷ select lo hi ds ≡ xs ++ e ∷ ys
    → select (key e) hi (d ∷ ds) ≡ ys
unfolding select
first_or_later lo hi d e ds [] ys above p later q =
    let same : d ≡ e = cc in
    subst (λ x. select (key x) hi (d ∷ ds) ≡ ys) same
      (rw (key_lt_irrefl (key d)) (select_after lo hi d ds above p ∙ cc))
first_or_later lo hi d e ds (x ∷ xs) ys above p later q =
    let tail : select lo hi ds ≡ xs ++ e ∷ ys = cc in
    rw
      (not_within (key e) hi d
        (found_above (λ f. key_lt (key d) (key f) ≡ true) lo hi ds xs ys e above tail))
      (later xs tail)

-- In a sorted table the edges between an edge that was found and the upper key are those that were
-- found after it.
pub select_from :
    (lo hi : Key) (es xs ys : List Edge) (e : Edge)
    → IsSorted es
    → select lo hi es ≡ xs ++ e ∷ ys
    → select (key e) hi es ≡ ys
unfolding select
select_from lo hi [] [] ys e h q = absurd (cc)
select_from lo hi [] (x ∷ xs) ys e h q = absurd (cc)
select_from lo hi (d ∷ ds) xs ys e h q = elim (Bool-cases (within lo hi d)) [
  | inl is_in ↦
      first_or_later lo hi d e ds xs ys h.0 (lo_below lo hi d is_in)
        (λ zs. select_from lo hi ds zs ys e h.1) (rw is_in at q)
  | inr not_in ↦
      (let tail : select lo hi ds ≡ xs ++ e ∷ ys = rw not_in at q in
        rw
          (not_within (key e) hi d
            (found_above (λ f. key_lt (key d) (key f) ≡ true) lo hi ds xs ys e h.0 tail))
          (select_from lo hi ds xs ys e h.1 tail))
]
