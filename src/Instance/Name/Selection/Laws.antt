-- ===== src/Instance/Name/Selection/Laws.antt =====
-- Which contents of the selection file are accepted.
use mathlib.Core.List.{append_assoc}
use rootcell.Prelude.{
  ℕ, ◌-◌, ◌≡◌, ◌≢◌, ◌⊎◌, ◌↔◌, refl, sym, ap, ◌∙◌, true, false, ◌++◌, [], ◌∷◌, arith, Text, codes,
  text_eq_iff, text_eq_refl, ok, Bool-cases, inl, inr, length, some, take, drop, take-append-drop,
  take-append_length, drop-append_length, length-append, all, ◌==◌,
}
use rootcell.Instance.Name.{is_instance_name, is_name_unit, is_lower, validate_instance_name}
use rootcell.Instance.Name.Laws.{validate_instance_name-eq-ok}
use rootcell.Instance.Name.Selection.{
  ends_with, strip_one_trailing_newline, has_line_break, has_space, is_space, parse_content,
  parse_selected_instance_file, write_selected_instance, read_selected_instance,
}

ends_with_sound :
    (s suffix : Text) → ends_with s suffix ≡ true → s ≡ take (length s - length suffix) s ++ suffix
unfolding ends_with
ends_with_sound s suffix h =
    let e : drop (length s - length suffix) s ≡ suffix =
      ground (arith, text_eq_iff (drop (length s - length suffix) s) suffix) in
    sym (take-append-drop (length s - length suffix) s)
    ∙ ap (λ t. take (length s - length suffix) s ++ t) e

length_minus : (s t : Text) → length (s ++ t) - length t ≡ length s
length_minus s t = omega (arith, length-append s t)

ends_with-append : (s suffix : Text) → ends_with (s ++ suffix) suffix ≡ true
unfolding ends_with
ends_with-append s suffix =
    rw (length_minus s suffix) (
      rw (drop-append_length s suffix)
        (ground (arith, text_eq_refl suffix, length-append s suffix)))

-- What is left of the content, and what was stripped.
strip_cases :
    (raw : Text)
    → (raw ≡ strip_one_trailing_newline raw)
      ⊎ (raw ≡ strip_one_trailing_newline raw ++ codes "\n")
      ⊎ (raw ≡ strip_one_trailing_newline raw ++ codes "\r\n")
unfolding strip_one_trailing_newline
strip_cases raw = elim (Bool-cases (ends_with raw (codes "\r\n"))) [
  | inl crlf ↦ rw crlf (inr (inr (ends_with_sound raw (codes "\r\n") crlf)))
  | inr no_crlf ↦ elim (Bool-cases (ends_with raw (codes "\n"))) [
    | inl lf ↦ rw (no_crlf, lf) (inr (inl (ends_with_sound raw (codes "\n") lf)))
    | inr no_lf ↦ rw (no_crlf, no_lf) (inl refl)
  ]
]

-- A name holds no white space, and no line break in particular.
name_unit-is_space : (c : ℕ) → is_name_unit c ≡ true → is_space c ≡ false
name_unit-is_space c h = ground arith

is_name_unit_first : (c : ℕ) → is_lower c ≡ true → is_name_unit c ≡ true
is_name_unit_first c h = ground arith

all_name_units : (name : Text) → is_instance_name name ≡ true → all is_name_unit name ≡ true
unfolding is_instance_name
all_name_units [] h = cc
all_name_units (c ∷ rest) h = ground arith

has_space_of_units : (s : Text) → all is_name_unit s ≡ true → has_space s ≡ false
unfolding has_space
has_space_of_units [] h = refl
has_space_of_units (c ∷ s) h = ground (arith, has_space_of_units s, name_unit-is_space c)

has_line_break_of_units : (s : Text) → all is_name_unit s ≡ true → has_line_break s ≡ false
unfolding has_line_break
has_line_break_of_units [] h = refl
has_line_break_of_units (c ∷ s) h = ground (arith, has_line_break_of_units s)

snoc_cancel : (s t : Text) (c d : ℕ) → s ++ (c ∷ []) ≡ t ++ (d ∷ []) → s ≡ t
snoc_cancel [] [] c d h = refl
snoc_cancel [] (y ∷ []) c d h = cc
snoc_cancel [] (y ∷ z ∷ t) c d h = cc
snoc_cancel (x ∷ []) [] c d h = cc
snoc_cancel (x ∷ z ∷ s) [] c d h = cc
snoc_cancel (x ∷ s) (y ∷ t) c d h = ground (arith, snoc_cancel s t c d (cc))

has_line_break-append : (s t : Text) → has_line_break t ≡ true → has_line_break (s ++ t) ≡ true
unfolding has_line_break
has_line_break-append [] t h = h
has_line_break-append (c ∷ s) t h = ground (arith, has_line_break-append s t h)

line_break_suffix :
    (s t : Text) (suffix : Text)
    → has_line_break s ≡ false
    → has_line_break suffix ≡ true
    → s ≢ t ++ suffix
line_break_suffix s t suffix h k e = cc (has_line_break-append t suffix k, ap has_line_break e)

plain-ends_with :
    (s suffix : Text)
    → has_line_break s ≡ false
    → has_line_break suffix ≡ true
    → ends_with s suffix ≡ false
plain-ends_with s suffix h k = elim (Bool-cases (ends_with s suffix)) [
  | inl e ↦ absurd (line_break_suffix s _ suffix h k (ends_with_sound s suffix e))
  | inr e ↦ e
]

plain_lf-ends_with :
    (s : Text) → has_line_break s ≡ false → ends_with (s ++ codes "\n") (codes "\r\n") ≡ false
plain_lf-ends_with s h = elim (Bool-cases (ends_with (s ++ codes "\n") (codes "\r\n"))) [
  | inl e ↦ absurd (crlf (ends_with_sound _ (codes "\r\n") e))
  | inr e ↦ e
]
  where
    rest : Text
    rest = take (length (s ++ codes "\n") - length (codes "\r\n")) (s ++ codes "\n")

    crlf : s ++ codes "\n" ≡ rest ++ codes "\r\n" → ⊥
    crlf e = line_break_suffix s rest (codes "\r") h (unfold has_line_break in refl) (
        snoc_cancel s (rest ++ codes "\r") b'\n' b'\n'
          (e ∙ sym (append_assoc rest (codes "\r") (codes "\n"))))

module _ (s : Text) (plain : has_line_break s ≡ false) where
  strip_plain : strip_one_trailing_newline s ≡ s
  unfolding strip_one_trailing_newline has_line_break
  strip_plain =
      rw (plain-ends_with s (codes "\r\n") plain refl, plain-ends_with s (codes "\n") plain refl)

  strip_lf : strip_one_trailing_newline (s ++ codes "\n") ≡ s
  unfolding strip_one_trailing_newline
  strip_lf =
      rw (plain_lf-ends_with s plain, ends_with-append s (codes "\n"), length_minus s (codes "\n"))
        (take-append_length s (codes "\n"))

  strip_crlf : strip_one_trailing_newline (s ++ codes "\r\n") ≡ s
  unfolding strip_one_trailing_newline
  strip_crlf =
      rw (ends_with-append s (codes "\r\n"), length_minus s (codes "\r\n"))
        (take-append_length s (codes "\r\n"))

name_not_empty : (name : Text) → is_instance_name name ≡ true → (length name == 0) ≡ false
unfolding is_instance_name
name_not_empty [] h = cc
name_not_empty (c ∷ rest) h = ground arith

parse_content-eq-ok :
    (content : Text) {name : Text}
    → parse_content content ≡ ok name
    → (name ≡ content) × (is_instance_name content ≡ true)
unfolding parse_content
parse_content-eq-ok content h = validate_instance_name-eq-ok content (ground arith)

parse_content_of_name : (name : Text) → is_instance_name name ≡ true → parse_content name ≡ ok name
unfolding parse_content validate_instance_name
parse_content_of_name name h =
    let units = all_name_units name h in
    rw (name_not_empty name h, has_line_break_of_units name units, has_space_of_units name units, h)

-- The selection file is accepted exactly if it holds a valid instance name, alone or with one
-- line ending behind it; the result is that name.
pub parse_selected_instance_file_iff :
    (raw name : Text)
    → (parse_selected_instance_file raw ≡ ok name) ↔ (
        (is_instance_name name ≡ true)
        × ((raw ≡ name) ⊎ (raw ≡ name ++ codes "\n") ⊎ (raw ≡ name ++ codes "\r\n")))
unfolding parse_selected_instance_file
parse_selected_instance_file_iff raw name = (accepted, accepts)
  where
    accepted :
        parse_content (strip_one_trailing_newline raw) ≡ ok name
        → (is_instance_name name ≡ true)
          × ((raw ≡ name) ⊎ (raw ≡ name ++ codes "\n") ⊎ (raw ≡ name ++ codes "\r\n"))
    accepted h = let (same, valid) = parse_content-eq-ok _ h in rw same (valid, strip_cases raw)

    accepts :
        (is_instance_name name ≡ true)
          × ((raw ≡ name) ⊎ (raw ≡ name ++ codes "\n") ⊎ (raw ≡ name ++ codes "\r\n"))
        → parse_content (strip_one_trailing_newline raw) ≡ ok name
    accepts (valid, shape) =
        let plain = has_line_break_of_units name (all_name_units name valid) in
        let parsed = parse_content_of_name name valid in
        elim shape [
          | inl e ↦ rw (e, strip_plain name plain) parsed
          | inr (inl e) ↦ rw (e, strip_lf name plain) parsed
          | inr (inr e) ↦ rw (e, strip_crlf name plain) parsed
        ]

write-eq-ok :
    (name : Text) {content : Text}
    → write_selected_instance name ≡ ok content
    → (content ≡ name ++ codes "\n") × (is_instance_name name ≡ true)
unfolding write_selected_instance
write-eq-ok name h = ground arith

-- What `select` writes, later commands read back.
pub read-write_selected_instance :
    (name : Text) {content : Text}
    → write_selected_instance name ≡ ok content
    → read_selected_instance (some content) ≡ ok name
unfolding read_selected_instance
read-write_selected_instance name {content} h =
    let (written, valid) = write-eq-ok name h in
    (parse_selected_instance_file_iff content name).1 (valid, inr (inl written))
