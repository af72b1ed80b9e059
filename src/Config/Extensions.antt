-- ===== src/Config/Extensions.antt =====
-- src/rootcell/extensions/config.ts: extensions.txt, and the ids of
-- src/rootcell/extensions/registry.ts. A set of ids is the list of its elements.
pub mod Kept
use rootcell.Prelude.{
  ℕ, zero, suc, ◌+◌, ◌-◌, Bool, true, false, not, ◌&&◌, ◌||◌, List, [], ◌∷◌, ◌++◌, Option, none,
  some, ◌==◌, ltb, leb, if◌then◌else◌, length, all, any, filter, take, or_else, is_some, Text,
  codes, text_eq, split_lines, starts_with, join, Result, ok, err, throw_if, ◌>>=◌, ◌>>◌,
}
use rootcell.Prelude.Decimal.{is_digit}
use rootcell.Instance.Name.Selection.{is_space, ends_with}
use rootcell.Config.Env.{cut_at, is_lower}

pub data ExtensionsError : Type 0 where
  invalid_key : ℕ → Text → ExtensionsError
  duplicate_key : ℕ → Text → ExtensionsError
  invalid_boolean : ℕ → Text → Text → ExtensionsError

-- `ROOTCELL_EXTENSION_IDS`
abbrev pub rootcell_extension_ids : List Text
rootcell_extension_ids =
    codes "claude-code" ∷ codes "cursor-cli" ∷ codes "pi-plannotator" ∷ codes "pi-subagents" ∷ []

abbrev pub has_text : List Text → Text → Bool
has_text texts text = any (λ t. text_eq t text) texts

-- An id, or the id behind an old name.
unfoldable pub canonical_rootcell_extension_id : Text → Option Text
canonical_rootcell_extension_id key =
    if has_text rootcell_extension_ids key
    then some key
    else if text_eq key (codes "plannotator")
    then some (codes "pi-plannotator")
    else if text_eq key (codes "subagent")
    then some (codes "pi-subagents")
    else none

-- `/^[a-z](?:[a-z0-9-]*[a-z0-9])?$/`
abbrev last_or : ℕ → Text → ℕ
last_or c [] = c
last_or c (x ∷ xs) = last_or x xs

unfoldable pub is_config_key : Text → Bool
is_config_key [] = false
is_config_key (c ∷ rest) =
    is_lower c
    && (all (λ x. is_lower x || is_digit x || x == b'-') rest
        && (is_lower (last_or c rest) || is_digit (last_or c rest)))

-- `value.trim()`
unfoldable pub trim_start : Text → Text
trim_start [] = []
trim_start (c ∷ s) = let rest = trim_start s in if is_space c then rest else c ∷ s

unfoldable pub trim_end : Text → Text
trim_end [] = []
trim_end (c ∷ s) = let rest = trim_end s in if is_space c && length rest == 0 then [] else c ∷ rest

-- `toLowerCase()`, which the comparison with words in ASCII letters tells from no other one.
abbrev pub to_lower : Text → Text
to_lower [] = []
to_lower (c ∷ s) = (if leb b'A' c && leb c b'Z' then c + 32 else c) ∷ to_lower s

unfoldable pub parse_extension_boolean : Text → Text → ℕ → Result ExtensionsError Bool
parse_extension_boolean value key line =
    let normalized = to_lower (trim_end (trim_start value)) in
    if has_text (codes "true" ∷ codes "1" ∷ codes "yes" ∷ codes "on" ∷ []) normalized
    then ok true
    else if has_text (codes "false" ∷ codes "0" ∷ codes "no" ∷ codes "off" ∷ [] ∷ []) normalized
    then ok false
    else err (invalid_boolean line key value)

pub data ConfigLine : Type 0 where
  blank : ConfigLine
  comment : Text → ConfigLine
  entry : Text → Text → Bool → Bool → ConfigLine

pub record ParsedExtensionsConfig : Type 0 where
  pub lines : List ConfigLine
  pub enabled : List Text
  pub unknown_keys : List Text

abbrev pub empty_config : ParsedExtensionsConfig
empty_config = record { lines = []; enabled = []; unknown_keys = [] }

-- A line in front of what the later lines give.
abbrev pub push_line : ConfigLine → ParsedExtensionsConfig → ParsedExtensionsConfig
push_line line config = record config { lines = line ∷ config.lines }

unfoldable pub push_entry :
    Text → Text → Option Text → Bool → ParsedExtensionsConfig → ParsedExtensionsConfig
push_entry raw key none value config = record {
  lines = entry raw key value false ∷ config.lines;
  enabled = config.enabled;
  unknown_keys = key ∷ config.unknown_keys;
}
push_entry raw key (some id) value config = record {
  lines = entry raw key value true ∷ config.lines;
  enabled = if value then id ∷ config.enabled else config.enabled;
  unknown_keys = config.unknown_keys;
}

-- The loop: `number` is the number of the line, and `seen` has the canonical keys before it.
unfoldable pub parse_config_lines :
    List Text → ℕ → List Text → Result ExtensionsError ParsedExtensionsConfig
parse_config_lines [] number seen = ok empty_config
parse_config_lines (raw ∷ raws) number seen =
    let (key, value) = or_else (cut_at b'=' raw) (raw, []) in
    let canonical_key = or_else (canonical_rootcell_extension_id key) key in
    let after_line = parse_config_lines raws (number + 1) seen in
    let after_entry = parse_config_lines raws (number + 1) (canonical_key ∷ seen) in
    if length raw == 0
    then (do config ← after_line; ok (push_line blank config))
    else if starts_with raw (codes "#")
    then (do config ← after_line; ok (push_line (comment raw) config))
    else (do
      throw_if (not (is_config_key key)) (invalid_key number key)
      throw_if (has_text seen canonical_key) (duplicate_key number key)
      value_enabled ← parse_extension_boolean value key number
      config ← after_entry
      ok (push_entry raw key (canonical_rootcell_extension_id key) value_enabled config))

unfoldable pub parse_extensions_config : Text → Result ExtensionsError ParsedExtensionsConfig
parse_extensions_config text =
    let raw_lines = split_lines text in
    let line_count =
      if length text == 0
      then 0
      else if ends_with text (codes "\n")
      then length raw_lines - 1
      else length raw_lines in
    parse_config_lines (take line_count raw_lines) 1 []

abbrev pub Overrides : Type 0
Overrides = List (Text × Bool)

unfoldable pub override_of : Overrides → Text → Bool → Bool
override_of [] id default = default
override_of ((key, value) ∷ more) id default =
    let rest = override_of more id default in if text_eq key id then value else rest

-- The text of a line, and the name that it makes present.
unfoldable pub render_line : Overrides → ConfigLine → Text
render_line overrides blank = []
render_line overrides (comment raw) = raw
render_line overrides (entry raw key enabled known) = elim (canonical_rootcell_extension_id key) [
  | none ↦ raw
  | some id ↦ id ++ (if override_of overrides id enabled then codes "=true" else codes "=false")
]

abbrev pub render_lines : Overrides → List ConfigLine → List Text
render_lines overrides [] = []
render_lines overrides (line ∷ lines) = render_line overrides line ∷ render_lines overrides lines

unfoldable pub present_ids : List ConfigLine → List Text
present_ids [] = []
present_ids (entry raw key enabled known ∷ lines) =
    or_else (canonical_rootcell_extension_id key) key ∷ present_ids lines
present_ids (blank ∷ lines) = present_ids lines
present_ids (comment raw ∷ lines) = present_ids lines

-- The line "id=false" for each id that no entry has.
unfoldable pub missing_lines : List Text → List Text → List Text
missing_lines present [] = []
missing_lines present (id ∷ ids) =
    let rest = missing_lines present ids in
    if has_text present id then rest else (id ++ codes "=false") ∷ rest

abbrev pub rendered_lines : Overrides → List ConfigLine → List Text
rendered_lines overrides lines =
    render_lines overrides lines ++ missing_lines (present_ids lines) rootcell_extension_ids

unfoldable pub render_extensions_config : ParsedExtensionsConfig → Overrides → Text
render_extensions_config config overrides =
    join b'\n' (rendered_lines overrides config.lines) ++ codes "\n"

-- The file afterwards, and what is read of it.
unfoldable pub ensure_extensions_config :
    Option Text → Result ExtensionsError (Text × ParsedExtensionsConfig)
ensure_extensions_config file = do
  config ← parse_extensions_config (or_else file [])
  let rendered = render_extensions_config config []
  again ← parse_extensions_config rendered
  ok (rendered, again)

-- The file afterwards, what is read of it, and whether it has changed.
unfoldable pub set_extension_enabled :
    Option Text → Text → Bool → Result ExtensionsError (Text × ParsedExtensionsConfig × Bool)
set_extension_enabled file id enabled = do
  (text, config) ← ensure_extensions_config file
  let before = has_text config.enabled id
  let rendered = render_extensions_config config ((id, enabled) ∷ [])
  let changed = not (if before then enabled else not enabled)
  again ← parse_extensions_config rendered
  ok (if changed then rendered else text, again, changed)

unfoldable pub enabled_extension_ids : ParsedExtensionsConfig → List Text
enabled_extension_ids config = filter (λ id. has_text config.enabled id) rootcell_extension_ids

unfoldable pub disabled_extension_ids : ParsedExtensionsConfig → List Text
disabled_extension_ids config =
    filter (λ id. not (has_text config.enabled id)) rootcell_extension_ids
