-- ===== src/Spy/Store/Queries/Patterns.antt =====
-- The pattern of a search, read as SQLite's LIKE with the escape "\" reads it.
use rootcell.Prelude.{
  ℕ, ◌≡◌, refl, ap, Bool, true, false, List, [], ◌∷◌, ◌++◌, map, none, some, ◌==◌, if◌then◌else◌,
  length, Text, arith, Bool-cases, inl, inr, ◌⊎◌,
}
use rootcell.Spy.Store.Queries.Search.{trim, escape_unit, like_pattern_for_search}

pub data PatternUnit : Type 0 where
  any_text : PatternUnit
  any_unit : PatternUnit
  literal : ℕ → PatternUnit

-- The units of a pattern; `escaped` is set behind an escape.
unfoldable pub read_pattern : Bool → Text → List PatternUnit
read_pattern escaped [] = []
read_pattern true (c ∷ s) = literal c ∷ read_pattern false s
read_pattern false (c ∷ s) =
    let behind_escape = read_pattern true s in
    let behind = read_pattern false s in
    if c == b'\\'
    then behind_escape
    else if c == b'%'
    then any_text ∷ behind
    else if c == b'_'
    then any_unit ∷ behind
    else literal c ∷ behind

abbrev escaped_text : Text → Text
escaped_text s = escape_unit b'_' (escape_unit b'%' (escape_unit b'\\' s))

read_pattern-escaped_text :
    (s rest : Text)
    → read_pattern false (escaped_text s ++ rest) ≡ map literal s ++ read_pattern false rest
unfolding read_pattern escape_unit
read_pattern-escaped_text [] rest = refl
read_pattern-escaped_text (c ∷ s) rest = ground (arith, read_pattern-escaped_text s rest)

-- A blank search has no pattern. The pattern of another one is read as any text, the units of the
-- trimmed search, each of which stands for itself, and any text.
pub read_pattern-like_pattern_for_search :
    (query : Text)
    → ((length (trim query) ≡ 0) × (like_pattern_for_search query ≡ none))
      ⊎ ((pattern : Text) × (like_pattern_for_search query ≡ some pattern)
          × (read_pattern false pattern ≡ any_text ∷ map literal (trim query) ++ any_text ∷ []))
unfolding like_pattern_for_search
read_pattern-like_pattern_for_search query = elim (Bool-cases (length (trim query) == 0)) [
  | inl e ↦ inl (ground arith, rw (like_pattern_for_search, e) refl)
  | inr e ↦ inr (
    b'%' ∷ escaped_text (trim query) ++ b'%' ∷ [],
    rw (like_pattern_for_search, e) refl,
    unfold read_pattern in
        ap (λ r. any_text ∷ r) (read_pattern-escaped_text (trim query) (b'%' ∷ [])),
  )
]
