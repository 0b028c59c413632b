-- ===== src/Config/Lists.antt =====
-- The lists of a configuration file.
use taobench.Prelude.{
  Bytes, List, [], ◌∷◌, ◌++◌, ◌≡◌, ◌≢◌, refl, sym, ap, ◌∙◌, Bool, true, false, if◌then◌else◌, All,
  All-append, append-nil, is_empty, append_assoc,
}
use taobench.Db.{Outcome, returns}
use taobench.Decimal.{skip_space, is_space}
use taobench.Text.{
  pieces, Lacks, pieces-line, pieces-last, pieces-cons, AreSpaces, skip_space-spaces,
}
use taobench.Config.{unquote, list_tokens, parse_tokens, parse_list}

module _ {T : Type 0} (f : Bytes → Outcome T) where
  -- An entry of the list: whether it stands in quotation marks, its text, and what `f` makes of it.
  pub record Entry : Type 0 where
    pub is_quoted : Bool
    pub text : Bytes
    pub value : T

  abbrev quoted : Bytes → Bytes
  quoted s = b'"' ∷ (s ++ b'"' ∷ [])

  abbrev shown : Entry → Bytes
  shown e = if e.is_quoted then quoted e.text else e.text

  abbrev pub IsShown : Bool → Bytes → Type 0
  IsShown true s = Unit
  IsShown false s = (skip_space s ≡ s) × (s ≢ [])

  abbrev pub IsEntry : Entry → Type 0
  IsEntry e =
      Lacks b',' e.text
      × Lacks b'"' e.text
      × IsShown e.is_quoted e.text
      × (f e.text ≡ returns e.value)

  -- The entries with a comma and a space between them.
  abbrev pub listed : List Entry → Bytes
  listed [] = []
  listed (e ∷ []) = shown e
  listed (e ∷ e' ∷ es) = shown e ++ b',' ∷ b' ' ∷ listed (e' ∷ es)

  abbrev pub values : List Entry → List T
  values [] = []
  values (e ∷ es) = e.value ∷ values es

  abbrev texts : List Entry → List Bytes
  texts [] = []
  texts (e ∷ es) = shown e ∷ texts es

  unquote-quoted : (s rest : Bytes) → Lacks b'"' s → unquote (s ++ rest) ≡ s ++ unquote rest
  unfolding unquote
  unquote-quoted [] rest h = refl
  unquote-quoted (c ∷ s) rest (h, hs) = rw (h, unquote-quoted s rest hs) refl

  unquote-shown : (b : Bool) (s : Bytes) → Lacks b'"' s → unquote (if b then quoted s else s) ≡ s
  unfolding unquote
  unquote-shown true s h = unquote-quoted s (b'"' ∷ []) h ∙ append-nil s
  unquote-shown false s h = ap unquote (sym (append-nil s)) ∙ unquote-quoted s [] h ∙ append-nil s

  shown-Lacks : (b : Bool) (s : Bytes) → Lacks b',' s → Lacks b',' (if b then quoted s else s)
  shown-Lacks true s h = (refl, All-append _ s _ h (refl, tt))
  shown-Lacks false s h = h

  skip_space-shown :
      (b : Bool) (s : Bytes)
      → IsShown b s
      → skip_space (if b then quoted s else s) ≡ (if b then quoted s else s)
  unfolding skip_space is_space
  skip_space-shown true s h = refl
  skip_space-shown false s h = h.0

  shown-ne-nil : (b : Bool) (s : Bytes) → IsShown b s → is_empty (if b then quoted s else s) ≡ false
  shown-ne-nil true s h = refl
  shown-ne-nil false [] h = absurd (h.1 refl)
  shown-ne-nil false (c ∷ s) h = refl

  list_tokens-cons :
      (p : Bytes) (s : Bytes)
      → list_tokens (p ∷ pieces b',' s) ≡ skip_space p ∷ list_tokens (pieces b',' s)
  unfolding list_tokens
  list_tokens-cons p s = let (x, xs, e) = pieces-cons b',' s in rw e refl

  no_token : (s : Bytes) → skip_space s ≡ [] → list_tokens (s ∷ []) ≡ []
  unfolding list_tokens
  no_token s e = rw e refl

  last_token : (s t : Bytes) → skip_space s ≡ t → is_empty t ≡ false → list_tokens (s ∷ []) ≡ t ∷ []
  unfolding list_tokens
  last_token s t e h = rw (e, h) refl

  skip_to_shown :
      (sp : Bytes) (e : Entry) → AreSpaces sp → IsEntry e → skip_space (sp ++ shown e) ≡ shown e
  skip_to_shown sp e hs h =
      skip_space-spaces sp (shown e) hs ∙ skip_space-shown e.is_quoted e.text h.2

  space_shown-Lacks :
      (sp : Bytes) (e : Entry) → Lacks b',' sp → IsEntry e → Lacks b',' (sp ++ shown e)
  space_shown-Lacks sp e hl h = All-append _ sp _ hl (shown-Lacks e.is_quoted e.text h.0)

  -- The tokens of the list, where spaces may stand before it.
  tokens :
      (sp : Bytes) (es : List Entry)
      → AreSpaces sp
      → Lacks b',' sp
      → All IsEntry es
      → list_tokens (pieces b',' (sp ++ listed es)) ≡ texts es
  unfolding list_tokens
  tokens sp [] hs hl h =
      ap list_tokens (pieces-last b',' (sp ++ []) (All-append _ sp [] hl tt))
      ∙ no_token (sp ++ []) (skip_space-spaces sp [] hs ∙ nothing)
    where
      nothing : skip_space [] ≡ []
      nothing = unfold skip_space in refl
  tokens sp (e ∷ []) hs hl (h, hh) =
      ap list_tokens (pieces-last b',' (sp ++ shown e) (space_shown-Lacks sp e hl h))
      ∙ last_token (sp ++ shown e) (shown e) (skip_to_shown sp e hs h)
          (shown-ne-nil e.is_quoted e.text h.2)
  tokens sp (e ∷ e' ∷ es) hs hl (h, hh) =
      ap (λ s. list_tokens (pieces b',' s)) (sym (append_assoc sp (shown e) _))
      ∙ ap list_tokens (pieces-line b',' (sp ++ shown e) _ (space_shown-Lacks sp e hl h))
      ∙ list_tokens-cons (sp ++ shown e) _
      ∙ ap (λ t. t ∷ list_tokens (pieces b',' (b' ' ∷ listed (e' ∷ es)))) (skip_to_shown sp e hs h)
      ∙ ap (◌∷◌ (shown e)) (tokens (b' ' ∷ []) (e' ∷ es) one_space (refl, tt) hh)
    where
      one_space : AreSpaces (b' ' ∷ [])
      one_space = unfold is_space in (refl, tt)

  parse_texts : (es : List Entry) → All IsEntry es → parse_tokens f (texts es) ≡ returns (values es)
  unfolding parse_tokens
  parse_texts [] h = refl
  parse_texts (e ∷ es) (h, hs) =
      rw (unquote-shown e.is_quoted e.text h.1, h.3, parse_texts es hs) refl

  -- The list of entries without commas and quotation marks, each in quotation marks or not, with a
  -- comma and a space between them, is read as the values of the entries in their order.
  pub parse_list-listed :
      (es : List Entry) → All IsEntry es → parse_list f (listed es) ≡ returns (values es)
  unfolding parse_list
  parse_list-listed es h = ap (parse_tokens f) (tokens [] es tt tt h) ∙ parse_texts es h
