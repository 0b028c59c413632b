-- ===== src/Decimal/Parse.antt =====
-- `std::stoll`: leading white space, a sign, digits up to the first other character, and the range
-- of the type. `std::stoi` is the same at its own range.
use taobench.Prelude.{
  ℕ, zero, suc, ◌+◌, ◌-◌, ◌*◌, ◌/◌, ◌%◌, ◌^◌, ◌<◌, ◌≤◌, ℤ, pos, negsuc, Bytes, [], ◌∷◌, ◌++◌, ◌≡◌,
  refl, arith, sym, All, All-append, if◌then◌else◌, ltb, leb, ◌==◌, Bool, true, false, ◌&&◌, ◌||◌,
  Option, none, some, append_assoc, InRange64, ap, ◌∙◌, ◌⊎◌, pos_part, neg_part, append-nil, subst,
  ◌≢◌,
}
use taobench.Db.{Outcome, returns, faults, Fault}
use taobench.Decimal.Print.{digits, to_string, digits_induction}

-- The characters that `isspace` takes in the "C" locale.
unfoldable pub is_space : ℕ → Bool
is_space c = c == 32 || (leb 9 c && leb c 13)

unfoldable pub skip_space : Bytes → Bytes
unfolding is_space
skip_space [] = []
skip_space (c ∷ s) = if is_space c then skip_space s else c ∷ s

unfoldable pub is_digit : ℕ → Bool
is_digit c = leb b'0' c && leb c b'9'

-- The number that the digits at the front continue.
unfoldable pub scan : ℕ → Bytes → ℕ
unfolding is_digit
scan n [] = n
scan n (c ∷ s) = if is_digit c then scan (n * 10 + (c - b'0')) s else n

unfoldable pub magnitude : Bytes → Option ℕ
unfolding is_digit scan
magnitude [] = none
magnitude (c ∷ s) = if is_digit c then some (scan 0 (c ∷ s)) else none

abbrev in_range : Bool → ℤ → Outcome ℤ
in_range true v = returns v
in_range false v = faults Fault.out_of_range

-- -n, for the texts with a minus sign.
abbrev negated : ℕ → ℤ
negated zero = pos 0
negated (suc n) = negsuc n

-- The sign, and the range whose upper bound is `bound - 1` and whose lower bound is `-bound`.
unfoldable pub signed : ℕ → Bytes → Outcome ℤ
unfolding magnitude
signed bound [] = faults Fault.invalid_argument
signed bound (c ∷ s) =
    if c == b'-'
    then (elim (magnitude s) [
      | none ↦ faults Fault.invalid_argument
      | some n ↦ in_range (leb n bound) (negated n)
    ])
    else if c == b'+'
    then (elim (magnitude s) [
      | none ↦ faults Fault.invalid_argument
      | some n ↦ in_range (ltb n bound) (pos n)
    ])
    else (elim (magnitude (c ∷ s)) [
      | none ↦ faults Fault.invalid_argument
      | some n ↦ in_range (ltb n bound) (pos n)
    ])

unfoldable pub stoll : Bytes → Outcome ℤ
unfolding skip_space signed
stoll s = signed (2 ^ 63) (skip_space s)

unfoldable pub stoi : Bytes → Outcome ℤ
unfolding skip_space signed
stoi s = signed (2 ^ 31) (skip_space s)

is_digit_of : (d : ℕ) → d < 10 → is_digit (b'0' + d) ≡ true
unfolding is_digit
is_digit_of d h = ground arith

scan_digit : (m d : ℕ) (rest : Bytes) → d < 10 → scan m ((b'0' + d) ∷ rest) ≡ scan (m * 10 + d) rest
unfolding scan
scan_digit m d rest h = rw (is_digit_of d h) (ap (λ k. scan k rest) (omega arith))

scan_one : (n : ℕ) → n < 10 → (rest : Bytes) → scan 0 ((b'0' + n) ∷ rest) ≡ scan n rest
scan_one n h rest = scan_digit 0 n rest h ∙ ap (λ k. scan k rest) (omega arith)

scan_more :
    (n : ℕ) (s : Bytes)
    → 9 < n
    → ((rest : Bytes) → scan 0 (s ++ rest) ≡ scan (n / 10) rest)
    → (rest : Bytes) → scan 0 ((s ++ (b'0' + n % 10) ∷ []) ++ rest) ≡ scan n rest
scan_more n s h ih rest =
    rw append_assoc
      (ih _ ∙ scan_digit (n / 10) (n % 10) rest (omega arith) ∙ ap (λ k. scan k rest) (omega arith))

-- Scanning the text of a number gives the number, and goes on with what follows.
scan-digits : (n : ℕ) (rest : Bytes) → scan 0 (digits n ++ rest) ≡ scan n rest
scan-digits =
    digits_induction (λ n s. (rest : Bytes) → scan 0 (s ++ rest) ≡ scan n rest) scan_one scan_more

-- The first character of a number's text is a digit.
abbrev StartsWithDigit : Bytes → Type 0
StartsWithDigit [] = ⊥
StartsWithDigit (c ∷ s) = (b'0' ≤ c) × (c ≤ b'9')

digits-StartsWithDigit : (n : ℕ) → StartsWithDigit (digits n)
digits-StartsWithDigit = digits_induction (λ n s. StartsWithDigit s) (λ n h. omega arith) more
  where
    more :
        (n : ℕ) (s : Bytes)
        → 9 < n
        → StartsWithDigit s
        → StartsWithDigit (s ++ (b'0' + n % 10) ∷ [])
    more n [] h p = absurd p
    more n (c ∷ s) h p = p

-- What may follow a number without being read as a part of it.
abbrev pub EndsNumber : Bytes → Type 0
EndsNumber [] = Unit {0}
EndsNumber (c ∷ s) = (c < b'0') ⊎ (b'9' < c)

scan_end : (n : ℕ) (rest : Bytes) → EndsNumber rest → scan n rest ≡ n
unfolding scan is_digit
scan_end n [] e = refl
scan_end n (c ∷ s) e = ground arith

magnitude_lem :
    (s rest : Bytes) → StartsWithDigit s → magnitude (s ++ rest) ≡ some (scan 0 (s ++ rest))
unfolding magnitude
magnitude_lem [] rest h = absurd h
magnitude_lem (c ∷ s) rest h = rw (digit c h) refl
  where
    digit : (c : ℕ) → (b'0' ≤ c) × (c ≤ b'9') → is_digit c ≡ true
    digit c h = unfold is_digit in ground arith

magnitude-digits : (n : ℕ) (rest : Bytes) → EndsNumber rest → magnitude (digits n ++ rest) ≡ some n
magnitude-digits n rest e =
    magnitude_lem (digits n) rest (digits-StartsWithDigit n)
    ∙ ap some (scan-digits n rest ∙ scan_end n rest e)

signed_plain :
    (bound : ℕ) (s rest : Bytes) (n : ℕ)
    → StartsWithDigit s
    → magnitude (s ++ rest) ≡ some n
    → n < bound
    → signed bound (s ++ rest) ≡ returns (pos n)
unfolding signed
signed_plain bound [] rest n h e b = absurd h
signed_plain bound (c ∷ s) rest n h e b = ground arith

signed_minus :
    (bound : ℕ) (s : Bytes) (n : ℕ)
    → magnitude s ≡ some (suc n)
    → n < bound
    → signed bound (b'-' ∷ s) ≡ returns (negsuc n)
unfolding signed
signed_minus bound s n e b = ground arith

-- At every bound the text of an integer below it is read back, in front of whatever does not begin
-- with a digit.
pub signed-to_string :
    (bound : ℕ) (v : ℤ) (rest : Bytes)
    → pos_part v < bound
    → neg_part v ≤ bound
    → EndsNumber rest
    → signed bound (to_string v ++ rest) ≡ returns v
unfolding to_string
signed-to_string bound (pos n) rest h k e =
    signed_plain bound (digits n) rest n (digits-StartsWithDigit n) (magnitude-digits n rest e) h
signed-to_string bound (negsuc n) rest h k e =
    signed_minus bound (digits (suc n) ++ rest) n (magnitude-digits (suc n) rest e) (omega arith)

skip_space_plain : (s rest : Bytes) → StartsWithDigit s → skip_space (s ++ rest) ≡ s ++ rest
unfolding skip_space
skip_space_plain [] rest h = absurd h
skip_space_plain (c ∷ s) rest h = ground arith

skip_space-to_string :
    (v : ℤ) (rest : Bytes) → skip_space (to_string v ++ rest) ≡ to_string v ++ rest
unfolding to_string skip_space
skip_space-to_string (pos n) rest = skip_space_plain (digits n) rest (digits-StartsWithDigit n)
skip_space-to_string (negsuc n) rest = refl

-- `stoll` reads back what `to_string` writes, in front of whatever does not begin with a digit.
pub stoll-to_string :
    (v : ℤ) (rest : Bytes) → InRange64 v → EndsNumber rest → stoll (to_string v ++ rest) ≡ returns v
unfolding stoll
stoll-to_string v rest h e =
    rw (skip_space-to_string v rest) (signed-to_string (2 ^ 63) v rest h.0 h.1 e)

-- `stoi` reads back an `int`.
pub stoi-to_string :
    (v : ℤ) → pos_part v < 2 ^ 31 → neg_part v ≤ 2 ^ 31 → stoi (to_string v) ≡ returns v
unfolding stoi
stoi-to_string v h k =
    ap stoi (sym (append-nil (to_string v)))
    ∙ ap (signed (2 ^ 31)) (skip_space-to_string v [])
    ∙ signed-to_string (2 ^ 31) v [] h k tt

digits-All : (n : ℕ) → All (λ c. b'-' ≤ c) (digits n)
digits-All =
    digits_induction (λ n s. All (λ c. b'-' ≤ c) s) (λ n h. (omega arith, tt))
      (λ n s h hs. All-append (λ c. b'-' ≤ c) s _ hs (omega arith, tt))

-- The text of a number holds only digits and the sign.
pub to_string-All : (v : ℤ) → All (λ c. b'-' ≤ c) (to_string v)
unfolding to_string
to_string-All (pos n) = digits-All n
to_string-All (negsuc n) = (omega arith, digits-All (suc n))

-- Two integers with the same text are the same.
pub to_string-injective : (v w : ℤ) → to_string v ≡ to_string w → v ≡ w
to_string-injective v w e = cc (
  ap (signed bound) e,
  ap (signed bound) (append-nil (to_string v)),
  ap (signed bound) (append-nil (to_string w)),
  signed-to_string bound v [] (omega arith) (omega arith) tt,
  signed-to_string bound w [] (omega arith) (omega arith) tt,
)
  where
    bound : ℕ
    bound = suc (pos_part v + neg_part v + pos_part w + neg_part w)

pub to_string-ne-nil : (v : ℤ) → to_string v ≢ []
unfolding to_string
to_string-ne-nil (pos n) e = subst (λ s. StartsWithDigit s) e (digits-StartsWithDigit n)
to_string-ne-nil (negsuc n) e = cc
