-- ===== src/Text.antt =====
-- What the readers of files and arguments share: `std::getline` with a delimiter, `find` of a
-- character, and white space at the two ends of a text.
use taobench.Prelude.{
  ℕ, Bytes, List, [], ◌∷◌, ◌++◌, ◌≡◌, refl, Bool, true, false, if◌then◌else◌, ◌==◌, Option, none,
  some, All, is_empty, ◌&&◌, arith, ==_iff,
}
use taobench.Decimal.{is_space, skip_space}

-- The parts of a text before and after the first `d`; `none` stands for `npos`.
unfoldable pub cut_at : ℕ → Bytes → Option (Bytes × Bytes)
cut_at d [] = none
cut_at d (c ∷ s) =
    if c == d
    then some ([], s)
    else (elim (cut_at d s) [ none ↦ none | some (a, b) ↦ some (c ∷ a, b) ])

abbrev pub prepend : ℕ → List Bytes → List Bytes
prepend c [] = (c ∷ []) ∷ []
prepend c (piece ∷ pieces) = (c ∷ piece) ∷ pieces

-- The pieces between the delimiters, the one after the last of them included.
unfoldable pub pieces : ℕ → Bytes → List Bytes
pieces d [] = [] ∷ []
pieces d (c ∷ s) = if c == d then [] ∷ pieces d s else prepend c (pieces d s)

-- What repeated `getline` gives until it fails: nothing follows a last delimiter.
unfoldable pub get_lines : ℕ → Bytes → List Bytes
get_lines d [] = []
get_lines d (c ∷ s) = if c == d then [] ∷ get_lines d s else prepend c (get_lines d s)

-- The text without the spaces at its end.
unfoldable pub skip_space_end : Bytes → Bytes
unfolding is_space
skip_space_end [] = []
skip_space_end (c ∷ s) =
    let rest = skip_space_end s in if is_space c && is_empty rest then [] else c ∷ rest

-- The text does not hold `d`.
abbrev pub Lacks : ℕ → Bytes → Type 0
Lacks d = All (λ c. (c == d) ≡ false)

abbrev pub AreSpaces : Bytes → Type 0
AreSpaces = All (λ c. is_space c ≡ true)

abbrev pub joined : ℕ → List Bytes → Bytes
joined d [] = []
joined d (t ∷ ts) = t ++ d ∷ joined d ts

pub cut_at-Lacks : (d : ℕ) (s t : Bytes) → Lacks d s → cut_at d (s ++ d ∷ t) ≡ some (s, t)
unfolding cut_at
cut_at-Lacks d [] t h = rw (==_refl d) refl
  where
    ==_refl : (n : ℕ) → (n == n) ≡ true
    ==_refl n = (==_iff n n).1 refl
cut_at-Lacks d (c ∷ s) t (h, hs) = rw (h, cut_at-Lacks d s t hs) refl

pub cut_at-none : (d : ℕ) (s : Bytes) → Lacks d s → cut_at d s ≡ none
unfolding cut_at
cut_at-none d [] h = refl
cut_at-none d (c ∷ s) (h, hs) = rw (h, cut_at-none d s hs) refl

pub get_lines-line :
    (d : ℕ) (s t : Bytes) → Lacks d s → get_lines d (s ++ d ∷ t) ≡ s ∷ get_lines d t
unfolding get_lines
get_lines-line d [] t h = ground arith
get_lines-line d (c ∷ s) t (h, hs) = rw (h, get_lines-line d s t hs) refl

-- A last line needs no delimiter, where it is not empty.
pub get_lines-last : (d c : ℕ) (s : Bytes) → Lacks d (c ∷ s) → get_lines d (c ∷ s) ≡ (c ∷ s) ∷ []
unfolding get_lines
get_lines-last d c [] (h, hs) = rw h refl
get_lines-last d c (c' ∷ s) (h, hs) = rw (h, get_lines-last d c' s hs) refl

pub get_lines-joined : (d : ℕ) (ts : List Bytes) → All (Lacks d) ts → get_lines d (joined d ts) ≡ ts
unfolding get_lines
get_lines-joined d [] h = refl
get_lines-joined d (t ∷ ts) (h, hs) =
    rw (get_lines-line d t (joined d ts) h, get_lines-joined d ts hs) refl

pub pieces-line : (d : ℕ) (s t : Bytes) → Lacks d s → pieces d (s ++ d ∷ t) ≡ s ∷ pieces d t
unfolding pieces
pieces-line d [] t h = ground arith
pieces-line d (c ∷ s) t (h, hs) = rw (h, pieces-line d s t hs) refl

pub pieces-last : (d : ℕ) (s : Bytes) → Lacks d s → pieces d s ≡ s ∷ []
unfolding pieces
pieces-last d [] h = refl
pieces-last d (c ∷ s) (h, hs) = rw (h, pieces-last d s hs) refl

-- There is always a first piece.
pub pieces-cons : (d : ℕ) (s : Bytes) → (x : Bytes) × (xs : List Bytes) × (pieces d s ≡ x ∷ xs)
unfolding pieces
pieces-cons d [] = ([], [], refl)
pieces-cons d (c ∷ s) = first (c == d) (pieces d s)
  where
    first :
        (b : Bool) (ps : List Bytes)
        → (x : Bytes) × (xs : List Bytes) × ((if b then [] ∷ ps else prepend c ps) ≡ x ∷ xs)
    first true ps = ([], ps, refl)
    first false [] = (c ∷ [], [], refl)
    first false (p ∷ ps) = (c ∷ p, ps, refl)

pub skip_space-spaces : (s t : Bytes) → AreSpaces s → skip_space (s ++ t) ≡ skip_space t
unfolding skip_space
skip_space-spaces [] t h = refl
skip_space-spaces (c ∷ s) t (h, hs) = rw h (skip_space-spaces s t hs)

pub skip_space_end-spaces : (s : Bytes) → AreSpaces s → skip_space_end s ≡ []
unfolding skip_space_end
skip_space_end-spaces [] h = refl
skip_space_end-spaces (c ∷ s) (h, hs) = rw (skip_space_end-spaces s hs, h) refl

pub skip_space_end-append : (t s : Bytes) → AreSpaces s → skip_space_end (t ++ s) ≡ skip_space_end t
unfolding skip_space_end
skip_space_end-append [] s h = skip_space_end-spaces s h
skip_space_end-append (c ∷ t) s h = rw (skip_space_end-append t s h) refl
