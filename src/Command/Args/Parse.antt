-- ===== src/Command/Args/Parse.antt =====
-- `parseRootcellArgs` of src/rootcell/args.ts over the result of yargs.
use rootcell.Prelude.{
  Bool, true, false, ◌||◌, List, [], ◌∷◌, Option, none, some, is_some, ltb, if◌then◌else◌, any,
  length, or_else, Text, codes, text_eq, starts_with, Result, ok, err, throw_if, ◌>>=◌, ◌>>◌,
}
use rootcell.Instance.Name.{default_instance, validate_instance_name}
use rootcell.Config.InitEnv.{ProviderType, macos_lima, aws_ec2}
use rootcell.Command.Copy.{parse_rootcell_copy_spec}
use rootcell.Command.Args.{
  ArgsError, unknown_argument, init_env_with_command, invalid_provider, instance_with_select,
  select_after_terminator, invalid_argument_value, invalid_name, invalid_copy, unknown_command,
  has_instance_flag, first_rootcell_token, drop_dashes, reject_unknown_spy_help_options,
}

-- What yargs gives: `words` is `_` and `after_terminator` is `--`, their values as strings.
pub record Argv : Type 0 where
  pub help : Bool
  pub completions : Option Text
  pub words : List Text
  pub after_terminator : List Text
  pub command : List Text
  pub instance_values : List Text
  pub init_env : List Text
  pub open_browser : Option Bool
  pub recursive : Option Bool
  pub target : Option Text
  pub extension_args : List Text
  pub copy_args : List Text
  pub selected_instance : Option Text

pub record ParsedRootcellRunArgs : Type 0 where
  pub instance_name : Text
  pub subcommand : Text
  pub rest : List Text
  pub spy_open : Bool
  pub copy_recursive : Option Bool

pub data ParsedRootcellArgs : Type 0 where
  handled : ParsedRootcellArgs
  init_env_args : Text → ProviderType → ParsedRootcellArgs
  select_args : Text → ParsedRootcellArgs
  run_args : ParsedRootcellRunArgs → ParsedRootcellArgs

-- ROOTCELL_SUBCOMMANDS
abbrev pub rootcell_subcommands : List Text
rootcell_subcommands =
    codes "select"
    ∷ codes "list"
    ∷ codes "stop"
    ∷ codes "remove"
    ∷ codes "edit"
    ∷ codes "extension"
    ∷ codes "provision"
    ∷ codes "allow"
    ∷ codes "pubkey"
    ∷ codes "copy"
    ∷ codes "spy"
    ∷ []

unfoldable pub is_rootcell_subcommand : Text → Bool
is_rootcell_subcommand value = any (λ name. text_eq name value) rootcell_subcommands

abbrev pub last_string : List Text → Option Text
last_string [] = none
last_string (value ∷ []) = some value
last_string (value ∷ next ∷ values) = last_string (next ∷ values)

abbrev pub map_error : {A E F : Type 0} → (E → F) → Result E A → Result F A
map_error f (ok a) = ok a
map_error f (err e) = err (f e)

abbrev pub valid_name : Text → Result ArgsError Text
valid_name name = map_error invalid_name (validate_instance_name name)

unfoldable pub instance_name : Argv → Result ArgsError Text
instance_name argv = valid_name (or_else (last_string argv.instance_values) default_instance)

abbrev pub arg_string : Option Text → Result ArgsError Text
arg_string none = err invalid_argument_value
arg_string (some value) = ok value

unfoldable pub parsed_subcommand : Argv → Option Text
parsed_subcommand argv = elim argv.words [
  | [] ↦ none
  | word ∷ words ↦ if is_rootcell_subcommand word then some word else none
]

unfoldable pub provider_type : Text → Result ArgsError ProviderType
provider_type text =
    if text_eq text (codes "macos-lima")
    then ok macos_lima
    else if text_eq text (codes "aws-ec2")
    then ok aws_ec2
    else err (invalid_provider text)

unfoldable pub parse_init_env : Argv → Text → Result ArgsError ParsedRootcellArgs
parse_init_env argv init_env = do
  throw_if
      (is_some (parsed_subcommand argv)
        || (ltb 0 (length argv.command) || ltb 0 (length argv.after_terminator)))
      init_env_with_command
  name ← instance_name argv
  provider ← provider_type init_env
  ok (init_env_args name provider)

unfoldable pub parse_select : List Text → Argv → Result ArgsError ParsedRootcellArgs
parse_select args argv = do
  throw_if (has_instance_flag args) instance_with_select
  throw_if (ltb 0 (length argv.after_terminator)) select_after_terminator
  selected ← arg_string argv.selected_instance
  name ← valid_name selected
  ok (select_args name)

unfoldable pub validated_copy_args : Argv → Result ArgsError (List Text)
validated_copy_args argv = do
  _ ← map_error invalid_copy (parse_rootcell_copy_spec argv.copy_args)
  ok argv.copy_args

unfoldable pub rest_of : Text → Argv → Result ArgsError (List Text)
rest_of subcommand argv =
    if text_eq subcommand (codes "edit")
    then (do target ← arg_string argv.target; ok (target ∷ []))
    else if text_eq subcommand (codes "extension")
    then ok argv.extension_args
    else if text_eq subcommand (codes "copy")
    then validated_copy_args argv
    else ok []

unfoldable pub parse_subcommand : Text → Argv → Result ArgsError ParsedRootcellArgs
parse_subcommand subcommand argv = do
  rest ← rest_of subcommand argv
  name ← instance_name argv
  ok (
      run_args (record {
        instance_name = name;
        subcommand = subcommand;
        rest = rest;
        spy_open =
            if text_eq subcommand (codes "spy") then or_else argv.open_browser true else true;
        copy_recursive =
            if text_eq subcommand (codes "copy") then some (or_else argv.recursive false) else none;
      }))

-- The message about a word that is no command names a valid instance.
abbrev pub unknown_command_error : Text → Argv → ArgsError
unknown_command_error command argv = elim (last_string argv.instance_values) [
  | none ↦ unknown_command command none
  | some selected ↦ elim (valid_name selected) [
    | err e ↦ e
    | ok name ↦ unknown_command command (some name)
  ]
]

abbrev pub guest_words : Argv → List Text
guest_words argv = if ltb 0 (length argv.command) then argv.command else argv.words

unfoldable pub parse_guest : Argv → Result ArgsError ParsedRootcellArgs
parse_guest argv = elim (guest_words argv) [
  | first ∷ words ↦
      if starts_with first (codes "-")
      then err (unknown_argument (drop_dashes first))
      else err (unknown_command_error first argv)
  | [] ↦ (do
    name ← instance_name argv
    ok (
        run_args (record {
          instance_name = name;
          subcommand = [];
          rest = argv.after_terminator;
          spy_open = true;
          copy_recursive = none;
        })))
]

abbrev pub is_first_token : List Text → Text → Bool
is_first_token args word = elim (first_rootcell_token args) [
  | none ↦ false
  | some token ↦ text_eq token word
]

unfoldable pub is_handled : List Text → Argv → Bool
is_handled args argv =
    argv.help
    || (is_first_token args (codes "help")
        || (is_first_token args (codes "completion") || is_some argv.completions))

-- What is done with the result of yargs.
unfoldable pub parse_argv : List Text → Argv → Result ArgsError ParsedRootcellArgs
parse_argv args argv =
    if is_handled args argv then ok handled else elim (last_string argv.init_env) [
      | some init_env ↦ parse_init_env argv init_env
      | none ↦ elim (parsed_subcommand argv) [
        | none ↦ parse_guest argv
        | some subcommand ↦
            if text_eq subcommand (codes "select")
            then parse_select args argv
            else parse_subcommand subcommand argv
      ]
    ]

unfoldable pub parse_rootcell_args :
    (List Text → Result ArgsError Argv) → List Text → Result ArgsError ParsedRootcellArgs
parse_rootcell_args yargs args = do
  _ ← reject_unknown_spy_help_options args
  argv ← yargs args
  parse_argv args argv
