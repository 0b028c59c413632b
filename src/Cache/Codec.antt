-- ===== src/Cache/Codec.antt =====
-- src/memcache.cc: the texts under which entries are stored and in which values are kept.
use taobench.Prelude.{
  ℕ, suc, ◌+◌, ◌%◌, ℤ, pos, negsuc, Bytes, List, [], ◌∷◌, ◌++◌, ◌≡◌, ◌≢◌, refl, sym, ap, ◌∙◌, arith,
  if◌then◌else◌, ◌==◌, Option, none, some, append-nil, ap₂, map, InRange64,
}
use taobench.Db.{Field, TimestampValue, Outcome, returns, ◌>>=◌}
use taobench.Decimal.{
  digits, to_string, digits_induction, stoll, stoll-to_string, to_string-injective,
  to_string-ne-nil,
}

-- `fields2Str`: the values, separated by commas.
unfoldable pub fields_to_str : List Field → Bytes
fields_to_str [] = []
fields_to_str (f ∷ []) = to_string f.value
fields_to_str (f ∷ g ∷ fs) = to_string f.value ++ b',' ∷ fields_to_str (g ∷ fs)

-- `timeval2Str`.
unfoldable pub timeval_to_str : TimestampValue → Bytes
timeval_to_str tv = to_string tv.timestamp ++ b',' ∷ tv.value

-- The parts of a text before and after its first comma; `none` stands for `npos`.
unfoldable pub cut : Bytes → Option (Bytes × Bytes)
cut [] = none
cut (c ∷ s) =
    if c == b','
    then some ([], s)
    else (elim (cut s) [ none ↦ none | some (a, b) ↦ some (c ∷ a, b) ])

-- `str2Timeval`. With no comma, `substr(0, npos)` and `substr(npos + 1)` are both the whole text.
unfoldable pub str_to_timeval : Bytes → Outcome TimestampValue
unfolding cut
str_to_timeval str = elim (cut str) [
  | some (a, b) ↦ (do t ← stoll a; returns (record { timestamp = t; value = b }))
  | none ↦ (do t ← stoll str; returns (record { timestamp = t; value = str }))
]

cut-append : (s t : Bytes) → cut s ≡ none → cut (s ++ b',' ∷ t) ≡ some (s, t)
unfolding cut
cut-append [] t h = refl
cut-append (c ∷ s) t h = ground (arith, cut-append s t)

cut-snoc : (s : Bytes) (d : ℕ) → cut s ≡ none → d ≢ b',' → cut (s ++ d ∷ []) ≡ none
unfolding cut
cut-snoc [] d h ne = ground arith
cut-snoc (c ∷ s) d h ne = ground (arith, cut-snoc s d)

cut-digits : (n : ℕ) → cut (digits n) ≡ none
cut-digits =
    digits_induction (λ n s. cut s ≡ none) (λ n h. cut-snoc [] (b'0' + n) nothing (omega arith))
      (λ n s h ih. cut-snoc s (b'0' + n % 10) ih (omega arith))
  where
    nothing : cut [] ≡ none
    nothing = unfold cut in refl

-- The text of a number holds no comma.
cut-to_string : (v : ℤ) → cut (to_string v) ≡ none
unfolding to_string cut
cut-to_string (pos n) = cut-digits n
cut-to_string (negsuc n) = ground (arith, cut-digits (suc n))

cut-value : (v : ℤ) (t : Bytes) → cut (to_string v ++ b',' ∷ t) ≡ some (to_string v, t)
cut-value v t = cut-append (to_string v) t (cut-to_string v)

stoll_value : (v : ℤ) → InRange64 v → stoll (to_string v) ≡ returns v
stoll_value v h = rw (← append-nil (to_string v)) (stoll-to_string v [] h tt)

-- A stored value is read back as it was, whatever its text holds, if its timestamp is in the range of
-- `int64_t`.
pub str_to_timeval-timeval_to_str :
    (tv : TimestampValue) → InRange64 tv.timestamp → str_to_timeval (timeval_to_str tv) ≡ returns tv
unfolding str_to_timeval timeval_to_str
str_to_timeval-timeval_to_str tv h =
    ground (arith, cut-value tv.timestamp tv.value, stoll_value tv.timestamp h)

-- No value is stored as the empty text, by which `get` knows a miss.
pub timeval_to_str-ne-nil : (tv : TimestampValue) → timeval_to_str tv ≢ []
unfolding timeval_to_str cut
timeval_to_str-ne-nil tv e = cc (cut-value tv.timestamp tv.value)

cut-fields_to_str_one : (f : Field) → cut (fields_to_str (f ∷ [])) ≡ none
unfolding fields_to_str
cut-fields_to_str_one f = cut-to_string f.value

cut-fields_to_str_more :
    (f g : Field) (fs : List Field)
    → cut (fields_to_str (f ∷ g ∷ fs)) ≡ some (to_string f.value, fields_to_str (g ∷ fs))
unfolding fields_to_str
cut-fields_to_str_more f g fs = cut-value f.value (fields_to_str (g ∷ fs))

abbrev pub values : List Field → List ℤ
values = map (λ f. f.value)

fields_to_str-ne-nil : (f : Field) (fs : List Field) → fields_to_str (f ∷ fs) ≢ []
unfolding fields_to_str
fields_to_str-ne-nil f [] e = to_string-ne-nil f.value e
fields_to_str-ne-nil f (g ∷ fs) e =
    absurd (unfold cut in cc (cut-fields_to_str_more f g fs, ap cut e))

fields_to_str_one :
    (f g : Field) → fields_to_str (f ∷ []) ≡ fields_to_str (g ∷ []) → f.value ≡ g.value
unfolding fields_to_str
fields_to_str_one f g e = to_string-injective f.value g.value e

-- Keys with the same text have the same values, in the same number: the texts of an object and of an
-- edge are never the same.
pub fields_to_str-values :
    (k l : List Field) → fields_to_str k ≡ fields_to_str l → values k ≡ values l
fields_to_str-values [] [] e = refl
fields_to_str-values [] (g ∷ gs) e =
    absurd (fields_to_str-ne-nil g gs (unfold fields_to_str in sym e))
fields_to_str-values (f ∷ fs) [] e = absurd (fields_to_str-ne-nil f fs (unfold fields_to_str in e))
fields_to_str-values (f ∷ []) (g ∷ []) e = ap (λ v. v ∷ []) (fields_to_str_one f g e)
fields_to_str-values (f ∷ []) (g ∷ g' ∷ gs) e =
    absurd (cc (cut-fields_to_str_one f, cut-fields_to_str_more g g' gs, ap cut e))
fields_to_str-values (f ∷ f' ∷ fs) (g ∷ []) e =
    absurd (cc (cut-fields_to_str_one g, cut-fields_to_str_more f f' fs, ap cut e))
fields_to_str-values (f ∷ f' ∷ fs) (g ∷ g' ∷ gs) e =
    ap₂ ◌∷◌ (to_string-injective f.value g.value heads)
      (fields_to_str-values (f' ∷ fs) (g' ∷ gs) tails)
  where
    same :
        ◌≡◌ {A = Option (Bytes × Bytes)}
          (some (to_string f.value, fields_to_str (f' ∷ fs)))
          (some (to_string g.value, fields_to_str (g' ∷ gs)))
    same = sym (cut-fields_to_str_more f f' fs) ∙ ap cut e ∙ cut-fields_to_str_more g g' gs

    heads : to_string f.value ≡ to_string g.value
    heads = cc same

    tails : fields_to_str (f' ∷ fs) ≡ fields_to_str (g' ∷ gs)
    tails = cc same
