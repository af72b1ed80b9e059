-- ===== src/Config/Env.antt =====
-- src/rootcell/env.ts: `loadDotEnv` and `parseSecretMappings` over the text of the file; an
-- environment is the list of its variables.
pub mod Laws
use rootcell.Prelude.{
  ℕ, zero, suc, ◌+◌, Bool, true, false, not, ◌&&◌, ◌||◌, List, [], ◌∷◌, ◌++◌, Option, none, some,
  ◌==◌, ltb, leb, if◌then◌else◌, length, all, take, drop, or_else, is_some, Text, codes, text_eq,
  split_lines, index_of, starts_with, Result, ok, err, throw_if, ◌>>=◌, ◌>>◌,
}
use rootcell.Prelude.Decimal.{is_digit}

pub data EnvError : Type 0 where
  invalid_variable_name : Text → EnvError
  invalid_entry : Text → EnvError
  invalid_secret_variable_name : Text → EnvError
  empty_reference : Text → EnvError
  no_provider : Text → EnvError
  empty_provider : Text → EnvError
  invalid_provider : Text → Text → EnvError

abbrev pub is_lower : ℕ → Bool
is_lower c = leb b'a' c && leb c b'z'

abbrev pub is_letter : ℕ → Bool
is_letter c = is_lower c || (leb b'A' c && leb c b'Z')

abbrev pub is_name_start : ℕ → Bool
is_name_start c = is_letter c || c == b'_'

-- `/^[A-Za-z_][A-Za-z0-9_]*$/`
unfoldable pub is_variable_name : Text → Bool
is_variable_name [] = false
is_variable_name (c ∷ rest) = is_name_start c && all (λ x. is_name_start x || is_digit x) rest

-- `/^[A-Za-z0-9][A-Za-z0-9_.-]*$/`
abbrev pub is_id_start : ℕ → Bool
is_id_start c = is_letter c || is_digit c

unfoldable pub is_provider_id : Text → Bool
is_provider_id [] = false
is_provider_id (c ∷ rest) =
    is_id_start c && all (λ x. is_id_start x || x == b'_' || x == b'.' || x == b'-') rest

-- The text before and behind the first `c`.
unfoldable pub cut_at : ℕ → Text → Option (Text × Text)
unfolding index_of
cut_at c line = elim (index_of c line) [
  | none ↦ none
  | some i ↦ some (take i line, drop (i + 1) line)
]

abbrev pub is_skipped : Text → Bool
is_skipped line = length line == 0 || starts_with line (codes "#")

abbrev pub Env : Type 0
Env = List (Text × Text)

unfoldable pub lookup : Text → Env → Option Text
lookup key [] = none
lookup key ((k, v) ∷ env) = let rest = lookup key env in if text_eq k key then some v else rest

-- A line of .env: the assignment that it makes, if it is no comment.
unfoldable pub parse_line : Text → Result EnvError (Option (Text × Text))
parse_line line =
    let (key, value) = or_else (cut_at b'=' line) (line, []) in
    if is_skipped line
    then ok none
    else if not (is_variable_name key)
    then err (invalid_variable_name key)
    else ok (some (key, value))

-- `env[key] = value`: the variable's value is overwritten, and a new variable comes last.
unfoldable pub set_variable : Text → Text → Env → Env
set_variable key value [] = (key, value) ∷ []
set_variable key value ((k, v) ∷ env) =
    let rest = set_variable key value env in
    if text_eq k key then (k, value) ∷ env else (k, v) ∷ rest

-- A variable that the environment has is left as it is.
abbrev pub assign : Option (Text × Text) → Env → Env
assign none env = env
assign (some (key, value)) env =
    if is_some (lookup key env) then env else set_variable key value env

-- The loop of `loadDotEnv`. What was assigned before an error stays assigned.
unfoldable pub load_lines : List Text → Env → Result EnvError (Unit {0}) × Env
load_lines [] env = (ok tt, env)
load_lines (line ∷ lines) env = elim (parse_line line) [
  | err e ↦ (err e, env)
  | ok assignment ↦ load_lines lines (assign assignment env)
]

-- The file, where it exists.
unfoldable pub load_dot_env : Option Text → Env → Result EnvError (Unit {0}) × Env
load_dot_env none env = (ok tt, env)
load_dot_env (some text) env = load_lines (split_lines text) env

pub record SecretEnvMapping : Type 0 where
  pub env_name : Text
  pub provider_id : Text
  pub reference : Text

-- The part of an entry behind its "=".
unfoldable pub parse_reference : Text → Text → Result EnvError SecretEnvMapping
parse_reference env_name service = elim (cut_at b':' service) [
  | none ↦ err (no_provider env_name)
  | some (provider_id, reference) ↦ do
    throw_if (length provider_id == 0) (empty_provider env_name)
    throw_if (not (is_provider_id provider_id)) (invalid_provider env_name provider_id)
    throw_if (length reference == 0) (empty_reference env_name)
    ok (record { env_name = env_name; provider_id = provider_id; reference = reference })
]

unfoldable pub parse_secret_mapping : Text → Result EnvError SecretEnvMapping
parse_secret_mapping line = elim (cut_at b'=' line) [
  | none ↦ err (invalid_entry line)
  | some (env_name, service) ↦ do
    throw_if (not (is_variable_name env_name)) (invalid_secret_variable_name env_name)
    throw_if (length service == 0) (empty_reference env_name)
    parse_reference env_name service
]

unfoldable pub parse_secret_lines : List Text → Result EnvError (List SecretEnvMapping)
parse_secret_lines [] = ok []
parse_secret_lines (line ∷ lines) =
    let rest = parse_secret_lines lines in
    if is_skipped line
    then rest
    else (do mapping ← parse_secret_mapping line; mappings ← rest; ok (mapping ∷ mappings))

unfoldable pub parse_secret_mappings : Text → Result EnvError (List SecretEnvMapping)
parse_secret_mappings text = parse_secret_lines (split_lines text)
