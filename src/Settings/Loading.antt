-- ===== src/Settings/Loading.antt =====
-- `Properties::Load` of src/properties.h, and that it reads back what a property file says.
use taobench.Prelude.{
  ℕ, Bytes, List, [], ◌∷◌, ◌++◌, ◌≡◌, refl, ap, ◌∙◌, Bool, true, false, if◌then◌else◌, ◌==◌, Option,
  none, some, All,
}
use taobench.Db.{Outcome, returns, faults, Fault}
use taobench.Text.{cut_at, pieces, Lacks, AreSpaces, cut_at-Lacks, cut_at-none, pieces-line}
use taobench.Settings.Trim.{trim, IsTrimmed, trim_around}
use taobench.Settings.Lookup.{Properties, set_property}

abbrev pub newline : ℕ
newline = 10

-- `line[0] == '#'`; the first character of an empty `std::string` is the null character.
abbrev pub is_comment : Bytes → Bool
is_comment [] = false
is_comment (c ∷ s) = c == b'#'

unfoldable pub load_line : Bytes → Properties → Properties
unfolding cut_at trim set_property
load_line line ps =
    if is_comment line
    then ps
    else (elim (cut_at b'=' line) [ none ↦ ps | some (k, v) ↦ set_property (trim k) (trim v) ps ])

abbrev pub load_all : List Bytes → Properties → Properties
load_all [] ps = ps
load_all (line ∷ lines) ps = load_all lines (load_line line ps)

-- `Load`, of the content of a file, or of a file that is not open. The loop ends only after the line
-- that reaches the end of the file, so what follows the last newline is a line too.
unfoldable pub load : Option Bytes → Properties → Outcome Properties
unfolding load_line pieces
load none ps = faults Fault.exception
load (some content) ps = returns (load_all (pieces newline content) ps)

-- What the lines of a property file may be: a comment, a line without `=`, or a setting with spaces
-- around its key and its value.
pub data FileLine : Type 0 where
  comment : Bytes → FileLine
  note : Bytes → FileLine
  setting : (before key after : Bytes) → (before' value after' : Bytes) → FileLine

abbrev pub text_of : FileLine → Bytes
text_of (comment s) = b'#' ∷ s
text_of (note s) = s
text_of (setting before key after before' value after') =
    (before ++ (key ++ after)) ++ b'=' ∷ (before' ++ (value ++ after'))

abbrev pub IsLine : FileLine → Type 0
IsLine (comment s) = Lacks newline s
IsLine (note s) = Lacks newline s × Lacks b'=' s
IsLine (setting before key after before' value after') =
    Lacks newline (text_of (setting before key after before' value after'))
    × (is_comment (text_of (setting before key after before' value after')) ≡ false)
    × Lacks b'=' (before ++ (key ++ after))
    × (AreSpaces before × AreSpaces after × IsTrimmed key)
    × (AreSpaces before' × AreSpaces after' × IsTrimmed value)

-- The text of a file with these lines, each with its newline.
abbrev pub file_of : List FileLine → Bytes
file_of [] = []
file_of (l ∷ ls) = text_of l ++ newline ∷ file_of ls

-- What the settings say, the later ones over the earlier.
abbrev pub settings_of : List FileLine → Properties → Properties
settings_of [] ps = ps
settings_of (setting before key after before' value after' ∷ ls) ps =
    settings_of ls (set_property key value ps)
settings_of (_ ∷ ls) ps = settings_of ls ps

text-Lacks : (l : FileLine) → IsLine l → Lacks newline (text_of l)
text-Lacks (comment s) h = (refl, h)
text-Lacks (note s) h = h.0
text-Lacks (setting before key after before' value after') h = h.0

load_setting :
    (before key after before' value after' : Bytes) (ps : Properties)
    → IsLine (setting before key after before' value after')
    → load_line (text_of (setting before key after before' value after')) ps
      ≡ set_property key value ps
unfolding load_line
load_setting before key after before' value after' ps (n, c, e, (s, t, k), (s', t', v)) =
    rw
      (
        c,
        cut_at-Lacks b'=' (before ++ (key ++ after)) (before' ++ (value ++ after')) e,
        trim_around before key after s t k,
        trim_around before' value after' s' t' v,
      )
      refl

load_text :
    (l : FileLine) (ps : Properties) → IsLine l → load_line (text_of l) ps ≡ settings_of (l ∷ []) ps
unfolding load_line
load_text (comment s) ps h = refl
load_text (note []) ps h = unfold cut_at in refl
load_text (note (c ∷ s)) ps h = rw (cut_at-none b'=' (c ∷ s) h.1) (either (c == b'#'))
  where
    either : (b : Bool) → (if b then ps else ps) ≡ ps
    either true = refl
    either false = refl
load_text (setting before key after before' value after') ps h =
    load_setting before key after before' value after' ps h

settings_of-cons :
    (l : FileLine) (ls : List FileLine) (ps : Properties)
    → settings_of ls (settings_of (l ∷ []) ps) ≡ settings_of (l ∷ ls) ps
settings_of-cons (comment s) ls ps = refl
settings_of-cons (note s) ls ps = refl
settings_of-cons (setting before key after before' value after') ls ps = refl

-- Loading a property file of comments, notes and settings, with any spaces around the keys and the
-- values, leaves what its settings say, in their order, over what was set before.
pub load_lines :
    (ls : List FileLine) (ps : Properties)
    → All IsLine ls
    → load (some (file_of ls)) ps ≡ returns (settings_of ls ps)
unfolding load
load_lines ls ps h = ap returns (lines ls ps h)
  where
    lines :
        (ls : List FileLine) (ps : Properties)
        → All IsLine ls
        → load_all (pieces newline (file_of ls)) ps ≡ settings_of ls ps
    lines [] ps h = unfold pieces load_line cut_at in refl
    lines (l ∷ ls) ps (h, hs) =
        ap (λ x. load_all x ps) (pieces-line newline (text_of l) (file_of ls) (text-Lacks l h))
        ∙ ap (load_all (pieces newline (file_of ls))) (load_text l ps h)
        ∙ lines ls (settings_of (l ∷ []) ps) hs
        ∙ settings_of-cons l ls ps
