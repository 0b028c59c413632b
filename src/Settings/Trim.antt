-- ===== src/Settings/Trim.antt =====
-- `Trim` and `StrToBool` of src/utils.h.
use taobench.Prelude.{
  ℕ, ◌+◌, Bytes, codes, eq_bytes, [], ◌∷◌, ◌++◌, ◌≡◌, refl, sym, ap, ◌∙◌, Bool, true, false,
  if◌then◌else◌, ◌||◌, ◌&&◌, leb, map, length, append-nil, ◌≤◌, arith, Bool-cases, inl, inr,
}
use taobench.Decimal.{is_space, skip_space}
use taobench.Db.{Outcome, returns, faults, Fault}
use taobench.Text.{skip_space_end, AreSpaces, skip_space-spaces, skip_space_end-append}

unfoldable pub trim : Bytes → Bytes
unfolding skip_space skip_space_end
trim s = skip_space_end (skip_space s)

-- `::tolower` in the "C" locale.
unfoldable pub to_lower : ℕ → ℕ
to_lower c = if leb b'A' c && leb c b'Z' then c + 32 else c

unfoldable pub str_to_bool : Bytes → Outcome Bool
unfolding to_lower
str_to_bool str =
    let s = map to_lower str in
    if eq_bytes s (codes "true") || eq_bytes s (codes "1")
    then returns true
    else if eq_bytes s (codes "false") || eq_bytes s (codes "0")
    then returns false
    else faults Fault.exception

-- A text with no space at either end.
abbrev pub IsTrimmed : Bytes → Type 0
IsTrimmed t = (skip_space t ≡ t) × (skip_space_end t ≡ t)

skip_space-idempotent : (s : Bytes) → skip_space (skip_space s) ≡ skip_space s
unfolding skip_space
skip_space-idempotent [] = refl
skip_space-idempotent (c ∷ s) = elim (Bool-cases (is_space c)) [
  | inl e ↦ rw e (skip_space-idempotent s)
  | inr e ↦ rw (e, e) refl
]

skip_space_end-idempotent : (s : Bytes) → skip_space_end (skip_space_end s) ≡ skip_space_end s
unfolding skip_space_end
skip_space_end-idempotent [] = refl
skip_space_end-idempotent (c ∷ s) = ground (arith, skip_space_end-idempotent s)

skip_space-length : (s : Bytes) → length (skip_space s) ≤ length s
unfolding skip_space
skip_space-length [] = omega arith
skip_space-length (c ∷ s) = ground (arith, skip_space-length s)

head_plain : (c : ℕ) (s : Bytes) → skip_space (c ∷ s) ≡ c ∷ s → is_space c ≡ false
unfolding skip_space
head_plain c s h = elim (Bool-cases (is_space c)) [
  | inl e ↦
      (let e' : skip_space s ≡ c ∷ s = ground arith in
        absurd (omega (arith, skip_space-length s, ap length e')))
  | inr e ↦ e
]

-- A text that begins with no space still does without the spaces at its end.
skip_space-skip_space_end :
    (s : Bytes) → skip_space s ≡ s → skip_space (skip_space_end s) ≡ skip_space_end s
unfolding skip_space skip_space_end
skip_space-skip_space_end [] h = refl
skip_space-skip_space_end (c ∷ s) h = let e = head_plain c s h in rw (e, e) refl

pub trim-IsTrimmed : (s : Bytes) → IsTrimmed (trim s)
unfolding trim
trim-IsTrimmed s = (
  skip_space-skip_space_end (skip_space s) (skip_space-idempotent s),
  skip_space_end-idempotent (skip_space s),
)

skip_space-all : (s : Bytes) → AreSpaces s → skip_space s ≡ []
skip_space-all s h =
    ap skip_space (sym (append-nil s)) ∙ skip_space-spaces s [] h ∙ unfold skip_space in refl

-- Whatever spaces stand around a text that has none at its ends, `Trim` gives that text.
pub trim_around :
    (front t back : Bytes)
    → AreSpaces front
    → AreSpaces back
    → IsTrimmed t
    → trim (front ++ (t ++ back)) ≡ t
unfolding trim
trim_around front [] back hf hb ht =
    ap skip_space_end (skip_space-spaces front back hf ∙ skip_space-all back hb) ∙ ht.1
trim_around front (c ∷ t) back hf hb ht =
    ap skip_space_end (skip_space-spaces front ((c ∷ t) ++ back) hf ∙ stops)
    ∙ skip_space_end-append (c ∷ t) back hb
    ∙ ht.1
  where
    stops : skip_space ((c ∷ t) ++ back) ≡ (c ∷ t) ++ back
    stops = rw (head_plain c t ht.0) refl
