-- ===== src/ReadPhase/Split.antt =====
-- The edges between two keys are those up to a key between them and those after it.
use taobench.Prelude.{
  ◌≤◌, Bool, true, false, ◌&&◌, not, if◌then◌else◌, List, [], ◌∷◌, ◌++◌, All, ◌≡◌, refl, ap, ◌∙◌,
  arith, length, Bool-cases, inl, inr,
}
use taobench.Db.{Edge}
use taobench.Loader.Order.{Key, key, key_lt, key_lt_trans, key_lt_asymm, select, IsSorted}

-- Every edge lies on one side of the key.
abbrev pub Avoids : Key → List Edge → Type 0
Avoids b = All (λ e. key_lt (key e) b ≡ not (key_lt b (key e)))

abbrev AllAbove : Key → List Edge → Type 0
AllAbove b = All (λ e. key_lt b (key e) ≡ true)

nothing_below : (a b : Key) (es : List Edge) → AllAbove b es → select a b es ≡ []
unfolding select
nothing_below a b [] h = refl
nothing_below a b (e ∷ es) (h, hs) =
    rw (key_lt_asymm b (key e) h, nothing_below a b es hs) (neither (key_lt a (key e)))
  where
    neither : (x : Bool) → (if x && false then e ∷ [] else []) ≡ []
    neither true = refl
    neither false = refl

same_above :
    (a b c : Key) (es : List Edge)
    → key_lt a b ≡ true
    → AllAbove b es
    → select b c es ≡ select a c es
unfolding select
same_above a b c [] ab h = refl
same_above a b c (e ∷ es) ab (h, hs) =
    rw (h, key_lt_trans a b (key e) ab h, same_above a b c es ab hs) refl

every_later :
    (b : Key) (e : Edge) (es : List Edge)
    → key_lt b (key e) ≡ true
    → All (λ f. key_lt (key e) (key f) ≡ true) es
    → AllAbove b es
every_later b e [] h hs = tt
every_later b e (f ∷ fs) h (g, gs) = (key_lt_trans b (key e) (key f) h g, every_later b e fs h gs)

below_first :
    (x : Bool) (e : Edge) (xs ys zs : List Edge)
    → xs ++ ys ≡ zs
    → (if x && true then e ∷ xs else xs) ++ ys ≡ (if x && true then e ∷ zs else zs)
below_first true e xs ys zs h = ap (◌∷◌ e) h
below_first false e xs ys zs h = h

pub select-split :
    (a b c : Key) (es : List Edge)
    → key_lt a b ≡ true
    → key_lt b c ≡ true
    → IsSorted es
    → Avoids b es
    → select a b es ++ select b c es ≡ select a c es
unfolding select
select-split a b c [] ab bc s v = refl
select-split a b c (e ∷ es) ab bc (above, s) (v, vs) = elim (Bool-cases (key_lt b (key e))) [
  | inl h ↦
      (let later : AllAbove b (e ∷ es) = (h, every_later b e es h above) in
        ap (λ x. x ++ select b c (e ∷ es)) (nothing_below a b (e ∷ es) later)
        ∙ same_above a b c (e ∷ es) ab later)
  | inr h ↦
      (let under : key_lt (key e) b ≡ true = v ∙ ap not h in
        rw (under, h, key_lt_trans (key e) b c under bc)
          (below_first (key_lt a (key e)) e (select a b es) (select b c es) (select a c es)
            (select-split a b c es ab bc s vs)))
]

pub length-select : (a b : Key) (es : List Edge) → length (select a b es) ≤ length es
unfolding select
length-select a b [] = omega arith
length-select a b (e ∷ es) = ground (arith, length-select a b es)
