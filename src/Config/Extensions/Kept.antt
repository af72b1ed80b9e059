-- ===== src/Config/Extensions/Kept.antt =====
-- What reading and rendering extensions.txt keep.
use rootcell.Prelude.{
  ℕ, zero, suc, ◌+◌, ◌≡◌, refl, sym, ap, ◌∙◌, Bool, false, not, List, [], ◌∷◌, ◌++◌, Option, none,
  some, ◌==◌, length, get_elem?, or_else, Text, codes, starts_with, Bool-cases, inl, inr, Result,
  ok, throw_if, ◌>>=◌, ◌>>◌, >>=-eq-ok, throw_if-eq-ok,
}
use rootcell.Config.Env.{cut_at}
use rootcell.Config.Extensions.{
  ExtensionsError, invalid_key, duplicate_key, ConfigLine, blank, comment, entry,
  ParsedExtensionsConfig, Overrides, canonical_rootcell_extension_id, has_text, push_line,
  push_entry, parse_config_lines, parse_extensions_config, parse_extension_boolean, is_config_key,
  render_line, render_lines, rendered_lines, present_ids, missing_lines, empty_config,
  rootcell_extension_ids,
}

-- No name stands in `seen`, nor twice.
abbrev pub IsApart : List Text → List Text → Type 0
IsApart seen [] = Unit {0}
IsApart seen (name ∷ names) = (has_text seen name ≡ false) × IsApart (name ∷ seen) names

present_ids-push_entry :
    (raw key : Text) (id : Option Text) (value : Bool) (config : ParsedExtensionsConfig)
    → present_ids (push_entry raw key id value config).lines
      ≡ or_else (canonical_rootcell_extension_id key) key ∷ present_ids config.lines
unfolding present_ids push_entry
present_ids-push_entry raw key none value config = refl
present_ids-push_entry raw key (some id) value config = refl

abbrev line_result :
    ConfigLine
    → Result ExtensionsError ParsedExtensionsConfig
    → Result ExtensionsError ParsedExtensionsConfig
line_result line read = do config ← read; ok (push_line line config)

abbrev entry_result :
    Text
    → Text
    → Text
    → ℕ
    → List Text
    → Result ExtensionsError ParsedExtensionsConfig
    → Result ExtensionsError ParsedExtensionsConfig
entry_result raw key value number seen read = do
  throw_if (not (is_config_key key)) (invalid_key number key)
  throw_if (has_text seen (or_else (canonical_rootcell_extension_id key) key))
      (duplicate_key number key)
  value_enabled ← parse_extension_boolean value key number
  config ← read
  ok (push_entry raw key (canonical_rootcell_extension_id key) value_enabled config)

entry_result-IsApart :
    (raw key value : Text) (number : ℕ) (seen : List Text)
    (read : Result ExtensionsError ParsedExtensionsConfig) {config : ParsedExtensionsConfig}
    → ((rest : ParsedExtensionsConfig)
        → read ≡ ok rest
        → IsApart
            (or_else (canonical_rootcell_extension_id key) key ∷ seen)
            (present_ids rest.lines))
    → entry_result raw key value number seen read ≡ ok config
    → IsApart seen (present_ids config.lines)
entry_result-IsApart raw key value number seen read {config = config} later h =
    let name = or_else (canonical_rootcell_extension_id key) key in
    let (_, h₁) = throw_if-eq-ok (not (is_config_key key)) (invalid_key number key) _ h in
    let (fresh, h₂) = throw_if-eq-ok (has_text seen name) (duplicate_key number key) _ h₁ in
    let (enabled, _, h₃) = >>=-eq-ok (parse_extension_boolean value key number) _ h₂ in
    let (rest, e, h₄) = >>=-eq-ok read _ h₃ in
    let same : config ≡ push_entry raw key (canonical_rootcell_extension_id key) enabled rest =
      cc in
    rw (same, present_ids-push_entry raw key (canonical_rootcell_extension_id key) enabled rest)
      (fresh, later rest e)

push_line-IsApart :
    (line : ConfigLine) (seen : List Text) (read : Result ExtensionsError ParsedExtensionsConfig)
    {config : ParsedExtensionsConfig}
    → ((c : ParsedExtensionsConfig) → present_ids (push_line line c).lines ≡ present_ids c.lines)
    → ((rest : ParsedExtensionsConfig) → read ≡ ok rest → IsApart seen (present_ids rest.lines))
    → line_result line read ≡ ok config
    → IsApart seen (present_ids config.lines)
push_line-IsApart line seen read {config = config} silent later h =
    let (rest, e, h₁) = >>=-eq-ok read _ h in
    let same : config ≡ push_line line rest = cc in rw (same, silent rest) (later rest e)

parse_config_lines-IsApart :
    (raws : List Text) (number : ℕ) (seen : List Text) (config : ParsedExtensionsConfig)
    → parse_config_lines raws number seen ≡ ok config
    → IsApart seen (present_ids config.lines)
unfolding parse_config_lines
parse_config_lines-IsApart [] number seen config h =
    let same : config ≡ empty_config = cc in rw same (unfold present_ids in tt)
parse_config_lines-IsApart (raw ∷ raws) number seen config h = elim (Bool-cases (length raw == 0)) [
  | inl nothing ↦
      push_line-IsApart blank seen (parse_config_lines raws (number + 1) seen)
        (λ c. unfold present_ids in refl)
        (λ rest e. parse_config_lines-IsApart raws (number + 1) seen rest e)
        (rw (nothing, parse_config_lines) at h)
  | inr something ↦ elim (Bool-cases (starts_with raw (codes "#"))) [
    | inl hash ↦
        push_line-IsApart (comment raw) seen (parse_config_lines raws (number + 1) seen)
          (λ c. unfold present_ids in refl)
          (λ rest e. parse_config_lines-IsApart raws (number + 1) seen rest e)
          (rw (something, hash, parse_config_lines) at h)
    | inr plain ↦
        let parts = or_else (cut_at b'=' raw) (raw, []) in
        entry_result-IsApart raw parts.0 parts.1 number seen
          (parse_config_lines raws (number + 1)
            (or_else (canonical_rootcell_extension_id parts.0) parts.0 ∷ seen))
          (λ rest e.
            parse_config_lines-IsApart raws (number + 1)
              (or_else (canonical_rootcell_extension_id parts.0) parts.0 ∷ seen) rest e)
          (rw (something, plain, parse_config_lines) at h)
  ]
]

-- In an accepted extensions.txt no extension is set twice, under its id or an old name of it, and
-- no unknown key stands twice.
pub parse_extensions_config-IsApart :
    (text : Text) (config : ParsedExtensionsConfig)
    → parse_extensions_config text ≡ ok config
    → IsApart [] (present_ids config.lines)
unfolding parse_extensions_config
parse_extensions_config-IsApart text config h = parse_config_lines-IsApart _ 1 [] config h

-- A line that is no entry of a known extension.
abbrev pub IsForeign : ConfigLine → Text → Type 0
IsForeign blank text = text ≡ []
IsForeign (comment raw) text = text ≡ raw
IsForeign (entry raw key enabled known) text =
    (canonical_rootcell_extension_id key ≡ none) × (text ≡ raw)

render_line-IsForeign :
    (overrides : Overrides) (line : ConfigLine) (text : Text)
    → IsForeign line text
    → render_line overrides line ≡ text
unfolding render_line
render_line-IsForeign overrides blank text h = sym h
render_line-IsForeign overrides (comment raw) text h = sym h
render_line-IsForeign overrides (entry raw key enabled known) text (unknown, h) =
    rw (render_line, unknown, h) refl

-- Blank lines, comments and the entries of unknown extensions keep their text and their place in
-- what is written back.
pub rendered_lines-IsForeign :
    (overrides : Overrides) (lines : List ConfigLine) (i : ℕ) (line : ConfigLine) (text : Text)
    → get_elem? lines i ≡ some line
    → IsForeign line text
    → get_elem? (rendered_lines overrides lines) i ≡ some text
rendered_lines-IsForeign overrides lines i line text h foreign =
    kept lines (missing_lines (present_ids lines) rootcell_extension_ids) i h
  where
    kept :
        (ls : List ConfigLine) (more : List Text) (k : ℕ)
        → get_elem? ls k ≡ some line
        → get_elem? (render_lines overrides ls ++ more) k ≡ some text
    kept [] more k e = absurd (cc)
    kept (l ∷ ls) more zero e =
        let same : l ≡ line = cc in
        ap some
          (ap (render_line overrides) same ∙ render_line-IsForeign overrides line text foreign)
    kept (l ∷ ls) more (suc k) e = kept ls more k e
