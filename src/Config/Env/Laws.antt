-- ===== src/Config/Env/Laws.antt =====
-- The variables behind `loadDotEnv`, and the form of the mappings of `parseSecretMappings`.
use rootcell.Prelude.{
  text_eq_refl, split_lines, ◌≡◌, ◌<◌, ap, true, not, List, [], ◌∷◌, Option, none, some, ◌==◌,
  length, All, Text, arith, ok, throw_if, ◌>>◌, Option-cases, Result-cases, Bool-cases, inl, inr,
  eq_of_text_eq, sym, subst, ◌∙◌, text_eq, false, err, if◌then◌else◌, refl, >>=-eq-ok,
  throw_if-eq-ok,
}
use rootcell.Config.Env.{
  invalid_secret_variable_name, empty_reference, Env, lookup, parse_line, assign, load_lines,
  set_variable, load_dot_env, SecretEnvMapping, is_variable_name, is_provider_id, parse_reference,
  parse_secret_mapping, parse_secret_lines, parse_secret_mappings, cut_at, is_skipped,
}

-- The first value, where there is one.
abbrev pub or_first : Option Text → Option Text → Option Text
or_first (some v) later = some v
or_first none later = later

abbrev pub value_for : Text → Option (Text × Text) → Option Text
value_for key none = none
value_for key (some (k, value)) = if text_eq k key then some value else none

-- The value of the first line that assigns the variable, of those before an invalid line.
pub first_value : Text → List Text → Option Text
first_value key [] = none
first_value key (line ∷ lines) = elim (parse_line line) [
  | err e ↦ none
  | ok assignment ↦ or_first (value_for key assignment) (first_value key lines)
]

or_first_assoc : (u v w : Option Text) → or_first (or_first u v) w ≡ or_first u (or_first v w)
or_first_assoc (some u) v w = refl
or_first_assoc none v w = refl

set_variable_cases :
    (key k value k' v : Text) (old new : Option Text)
    → new ≡ (if text_eq k key then some value else old)
    → (text_eq k' k ≡ false)
    → (if text_eq k' key then some v else new)
      ≡ (if text_eq k key then some value else if text_eq k' key then some v else old)
set_variable_cases key k value k' v old new h other = elim (Bool-cases (text_eq k key)) [
  | inr e ↦ ground arith
  | inl e ↦ elim (Bool-cases (text_eq k' key)) [
    | inr f ↦ ground arith
    | inl f ↦
        let same : k' ≡ k = eq_of_text_eq k' key f ∙ sym (eq_of_text_eq k key e) in
        absurd (cc (subst (λ x. text_eq x k ≡ false) same other, text_eq_refl k))
  ]
]

-- A variable that is set has its value, and the others keep theirs.
lookup-set_variable :
    (key k value : Text) (env : Env)
    → lookup key (set_variable k value env) ≡ (if text_eq k key then some value else lookup key env)
unfolding lookup set_variable
lookup-set_variable key k value [] = refl
lookup-set_variable key k value ((k', v) ∷ env) =
    let rest = lookup-set_variable key k value env in
    elim (Bool-cases (text_eq k' k)) [
      | inl e ↦ let same = eq_of_text_eq k' k e in ground arith
      | inr e ↦ rw e (set_variable_cases key k value k' v (lookup key env) _ rest e)
    ]

assign_own :
    (key value : Text) (env : Env)
    → lookup key (assign (some (key, value)) env) ≡ or_first (lookup key env) (some value)
assign_own key value env = elim (Option-cases (lookup key env)) [
  | inl absent ↦ rw absent (lookup-set_variable key key value env ∙ rw (text_eq_refl key) refl)
  | inr (v, found) ↦ rw found found
]

or_first-none : (u : Option Text) → u ≡ or_first u none
or_first-none (some u) = refl
or_first-none none = refl

assign_other :
    (key k value : Text) (env : Env)
    → text_eq k key ≡ false
    → lookup key (assign (some (k, value)) env) ≡ lookup key env
assign_other key k value env e = elim (Option-cases (lookup k env)) [
  | inl absent ↦ rw absent (lookup-set_variable key k value env ∙ rw e refl)
  | inr (v, found) ↦ rw found refl
]

lookup-assign :
    (key : Text) (a : Option (Text × Text)) (env : Env)
    → lookup key (assign a env) ≡ or_first (lookup key env) (value_for key a)
lookup-assign key none env = or_first-none (lookup key env)
lookup-assign key (some (k, w)) env = elim (Bool-cases (text_eq k key)) [
  | inl e ↦
      subst
        (λ x.
          lookup key (assign (some (x, w)) env)
          ≡ or_first (lookup key env) (value_for key (some (x, w))))
        (sym (eq_of_text_eq k key e)) (rw (text_eq_refl key) (assign_own key w env))
  | inr e ↦ rw e (assign_other key k w env e ∙ or_first-none (lookup key env))
]

lookup-load_lines :
    (key : Text) (lines : List Text) (env : Env)
    → lookup key (load_lines lines env).1 ≡ or_first (lookup key env) (first_value key lines)
unfolding load_lines first_value
lookup-load_lines key [] env = ground arith
lookup-load_lines key (line ∷ lines) env = elim (Result-cases (parse_line line)) [
  | inl (a, e) ↦
      rw (load_lines, first_value, e)
        (lookup-load_lines key lines (assign a env)
          ∙ ap (λ u. or_first u (first_value key lines)) (lookup-assign key a env)
          ∙ or_first_assoc (lookup key env) (value_for key a) (first_value key lines))
  | inr (e, p) ↦ rw (load_lines, first_value, p) (ground arith)
]

-- The lines of the file, where it exists.
abbrev pub lines_of_file : Option Text → List Text
lines_of_file none = []
lines_of_file (some text) = split_lines text

-- A variable that is set keeps its value. Another one gets the value of the first line of the file
-- that assigns it, of the lines before an invalid one, and otherwise stays without a value.
pub lookup-load_dot_env :
    (key : Text) (file : Option Text) (env : Env)
    → lookup key (load_dot_env file env).1
      ≡ or_first (lookup key env) (first_value key (lines_of_file file))
unfolding load_dot_env first_value
lookup-load_dot_env key none env = ground arith
lookup-load_dot_env key (some text) env = lookup-load_lines key (split_lines text) env

-- The names are names, and the reference is not empty.
pub record IsMapping (m : SecretEnvMapping) : Type 0 where
  pub name : is_variable_name m.env_name ≡ true
  pub provider : is_provider_id m.provider_id ≡ true
  pub reference : 0 < length m.reference

parse_reference-eq-ok :
    (name service : Text) {m : SecretEnvMapping}
    → parse_reference name service ≡ ok m
    → (m.env_name ≡ name) × (is_provider_id m.provider_id ≡ true) × (0 < length m.reference)
unfolding parse_reference
parse_reference-eq-ok name service h = ground arith

parse_secret_mapping-IsMapping :
    (line : Text) {m : SecretEnvMapping} → parse_secret_mapping line ≡ ok m → IsMapping m
unfolding parse_secret_mapping
parse_secret_mapping-IsMapping line h = elim (Option-cases (cut_at b'=' line)) [
  | inl missing ↦ absurd (cc (rw (missing, parse_secret_mapping) at h))
  | inr ((name, service), found) ↦
      let (named, h₁) =
        throw_if-eq-ok (not (is_variable_name name)) (invalid_secret_variable_name name)
          (throw_if (length service == 0) (empty_reference name) >> parse_reference name service)
          (rw (found, parse_secret_mapping) at h) in
      let (_, h₂) =
        throw_if-eq-ok (length service == 0) (empty_reference name) (parse_reference name service)
          h₁ in
      let (same, provider, reference) = parse_reference-eq-ok name service h₂ in
      record {
        name = ground (arith, ap is_variable_name same);
        provider = provider;
        reference = reference;
      }
]

parse_secret_lines-IsMapping :
    (lines : List Text) {ms : List SecretEnvMapping}
    → parse_secret_lines lines ≡ ok ms
    → All IsMapping ms
unfolding parse_secret_lines
parse_secret_lines-IsMapping [] {ms = []} h = tt
parse_secret_lines-IsMapping [] {ms = m ∷ ms} h = absurd (cc)
parse_secret_lines-IsMapping (line ∷ lines) {ms = ms} h = elim (Bool-cases (is_skipped line)) [
  | inl skipped ↦ parse_secret_lines-IsMapping lines (rw skipped at h)
  | inr entry ↦
      let (m, read, h₁) = >>=-eq-ok (parse_secret_mapping line) _ (rw entry at h) in
      let (others, later, h₂) = >>=-eq-ok (parse_secret_lines lines) _ h₁ in
      let same : ms ≡ m ∷ others = cc in
      rw same (parse_secret_mapping-IsMapping line read, parse_secret_lines-IsMapping lines later)
]

-- Every mapping of an accepted secrets.env has a variable name, a provider id and a reference.
pub parse_secret_mappings-IsMapping :
    (text : Text) {ms : List SecretEnvMapping}
    → parse_secret_mappings text ≡ ok ms
    → All IsMapping ms
unfolding parse_secret_mappings
parse_secret_mappings-IsMapping text h = parse_secret_lines-IsMapping _ h
