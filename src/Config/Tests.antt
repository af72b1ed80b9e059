-- ===== src/Config/Tests.antt =====
-- The theorems about the configuration files at concrete inputs.
use rootcell.Prelude.{
  ◌≡◌, refl, true, false, List, [], ◌∷◌, none, some, Option, All, get_elem?, ok, codes, Text, split,
  split_lines, text_eq, index_of, not, any,
}
use rootcell.Instance.Name.Selection.{ends_with}
use rootcell.Config.Env.{
  Env, lookup, load_dot_env, SecretEnvMapping, parse_secret_mappings, parse_secret_lines,
  parse_secret_mapping, parse_reference, cut_at, is_variable_name, is_provider_id,
}
use rootcell.Config.Env.Laws.{
  lookup-load_dot_env, or_first, first_value, lines_of_file, IsMapping,
  parse_secret_mappings-IsMapping,
}
use rootcell.Config.InitEnv.{upsert_lines, provider_env_assignments, macos_lima, key_of_line}
use rootcell.Config.InitEnv.Kept.{upsert_lines-foreign}
use rootcell.Config.Extensions.{
  ParsedExtensionsConfig, comment, entry, parse_extensions_config, parse_config_lines, present_ids,
  rendered_lines, is_config_key, parse_extension_boolean, canonical_rootcell_extension_id,
  push_entry, trim_start, trim_end,
}
use rootcell.Config.Extensions.Kept.{
  IsApart, parse_extensions_config-IsApart, rendered_lines-IsForeign,
}

abbrev home_env : Env
home_env = (codes "HOME", codes "/root") ∷ []

home_test : lookup (codes "HOME") home_env ≡ some (codes "/root")
unfolding lookup text_eq
home_test = refl

abbrev home_file : Option Text
home_file = some (codes "HOME=/tmp\nSHELL=sh\nbad name=1\nTERM=vt")

lookup-load_dot_env_example :
    lookup (codes "HOME") (load_dot_env home_file home_env).1
    ≡ or_first
        (lookup (codes "HOME") home_env)
        (first_value (codes "HOME") (lines_of_file home_file))
lookup-load_dot_env_example = lookup-load_dot_env (codes "HOME") home_file home_env

abbrev token_mapping : SecretEnvMapping
token_mapping = record {
  env_name = codes "TOKEN";
  provider_id = codes "macos-keychain";
  reference = codes "my-token";
}

secrets_test :
    parse_secret_mappings (codes "# keys\nTOKEN=macos-keychain:my-token\n")
    ≡ ok (token_mapping ∷ [])
unfolding parse_secret_mappings parse_secret_lines parse_secret_mapping parse_reference cut_at
    is_variable_name is_provider_id split_lines split text_eq index_of
secrets_test = refl

parse_secret_mappings-IsMapping_example : All IsMapping (token_mapping ∷ [])
parse_secret_mappings-IsMapping_example =
    parse_secret_mappings-IsMapping (codes "# keys\nTOKEN=macos-keychain:my-token\n") secrets_test

abbrev two_lines : List Text
two_lines = codes "ROOTCELL_VM_PROVIDER=aws-ec2" ∷ codes "FIREWALL_IP=10.0.0.10" ∷ []

foreign_test :
    not (
      any
        (λ a. text_eq a.key (key_of_line (codes "FIREWALL_IP=10.0.0.10")))
        (provider_env_assignments macos_lima []))
    ≡ true
unfolding key_of_line cut_at index_of text_eq provider_env_assignments
foreign_test = refl

upsert_lines-foreign_example :
    get_elem? (upsert_lines (provider_env_assignments macos_lima []) two_lines).0 1
    ≡ some (codes "FIREWALL_IP=10.0.0.10")
upsert_lines-foreign_example =
    upsert_lines-foreign (provider_env_assignments macos_lima []) two_lines 1 refl foreign_test

abbrev parsed_config : ParsedExtensionsConfig
parsed_config = record {
  lines =
      comment (codes "# mine")
      ∷ entry (codes "plannotator=yes") (codes "plannotator") true true
      ∷ entry (codes "other=0") (codes "other") false false
      ∷ [];
  enabled = codes "pi-plannotator" ∷ [];
  unknown_keys = codes "other" ∷ [];
}

extensions_test :
    parse_extensions_config (codes "# mine\nplannotator=yes\nother=0\n") ≡ ok parsed_config
unfolding parse_extensions_config parse_config_lines is_config_key parse_extension_boolean
    canonical_rootcell_extension_id push_entry trim_start trim_end cut_at index_of split_lines split
    text_eq ends_with
extensions_test = refl

parse_extensions_config-IsApart_example : IsApart [] (present_ids parsed_config.lines)
parse_extensions_config-IsApart_example =
    parse_extensions_config-IsApart (codes "# mine\nplannotator=yes\nother=0\n") parsed_config
      extensions_test

unknown_test : canonical_rootcell_extension_id (codes "other") ≡ none
unfolding canonical_rootcell_extension_id text_eq
unknown_test = refl

rendered_lines-IsForeign_example :
    get_elem? (rendered_lines ((codes "pi-plannotator", false) ∷ []) parsed_config.lines) 2
    ≡ some (codes "other=0")
rendered_lines-IsForeign_example =
    rendered_lines-IsForeign ((codes "pi-plannotator", false) ∷ []) parsed_config.lines 2
      (entry (codes "other=0") (codes "other") false false) (codes "other=0") refl
      (unknown_test, refl)
