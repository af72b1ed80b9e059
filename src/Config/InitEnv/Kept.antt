-- ===== src/Config/InitEnv/Kept.antt =====
-- What `rootcell --init-env` leaves as it is.
use rootcell.Prelude.{
  ℕ, zero, suc, ◌≡◌, refl, ap, ◌∙◌, Bool, true, false, not, ◌||◌, List, [], ◌∷◌, none, some,
  get_elem?, Text, codes, starts_with, find, filter, arith, Option-cases, Bool-cases, inl, inr, any,
}
use rootcell.Config.InitEnv.{EnvAssignment, has_key, key_of_line, upsert_line, upsert_lines}

-- A comment, or a line whose key no pending assignment has.
abbrev pub is_foreign : List EnvAssignment → Text → Bool
is_foreign pending line =
    starts_with line (codes "#") || not (any (has_key (key_of_line line)) pending)

find-any :
    (key : Text) (pending : List EnvAssignment)
    → any (has_key key) pending ≡ false
    → find (has_key key) pending ≡ none
find-any key [] h = refl
find-any key (a ∷ pending) h = ground (arith, find-any key pending)

any-filter :
    (key : Text) (p : EnvAssignment → Bool) (pending : List EnvAssignment)
    → any (has_key key) pending ≡ false
    → any (has_key key) (filter p pending) ≡ false
any-filter key p [] h = refl
any-filter key p (a ∷ pending) h = ground (arith, any-filter key p pending)

upsert_line-foreign :
    (pending : List EnvAssignment) (line : Text)
    → is_foreign pending line ≡ true
    → upsert_line pending line ≡ (line, pending)
unfolding upsert_line
upsert_line-foreign pending line h = elim (Bool-cases (starts_with line (codes "#"))) [
  | inl comment ↦ rw comment refl
  | inr entry ↦ rw (entry, find-any (key_of_line line) pending (ground arith)) refl
]

-- What no pending assignment has stays so behind a line.
is_foreign-upsert_line :
    (pending : List EnvAssignment) (line other : Text)
    → is_foreign pending other ≡ true
    → is_foreign (upsert_line pending line).1 other ≡ true
unfolding upsert_line
is_foreign-upsert_line pending line other h = elim (Bool-cases (starts_with line (codes "#"))) [
  | inl comment ↦ rw comment h
  | inr entry ↦ elim (Option-cases (find (has_key (key_of_line line)) pending)) [
    | inl nothing ↦ rw (entry, nothing) h
    | inr (a, found) ↦
        rw (entry, found)
          (ground (
            arith,
            any-filter (key_of_line other) (λ b. not (has_key (key_of_line line) b)) pending,
          ))
  ]
]

-- A comment line, and a line whose key is none of the assignments', stays at its place.
pub upsert_lines-foreign :
    (assignments : List EnvAssignment) (lines : List Text) (i : ℕ) {line : Text}
    → get_elem? lines i ≡ some line
    → is_foreign assignments line ≡ true
    → get_elem? (upsert_lines assignments lines).0 i ≡ some line
unfolding upsert_lines
upsert_lines-foreign assignments [] i h f = absurd (cc)
upsert_lines-foreign assignments (l ∷ lines) zero {line} h f =
    let same : l ≡ line = cc in
    ap (λ r. some r.0) (upsert_line-foreign assignments l (rw same f)) ∙ h
upsert_lines-foreign assignments (l ∷ lines) (suc i) {line} h f =
    upsert_lines-foreign (upsert_line assignments l).1 lines i h
      (is_foreign-upsert_line assignments l line f)
