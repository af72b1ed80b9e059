-- ===== src/Command/Args.antt =====
-- src/rootcell/args.ts: the command line. The scanners read the arguments as they are; what yargs
-- makes of them, or the error it reports, is an argument of the parser.
pub mod Parse
pub mod Laws
use rootcell.Prelude.{
  ℕ, Bool, true, false, not, ◌&&◌, ◌||◌, List, [], ◌∷◌, ◌++◌, Option, none, some, ◌==◌, ltb,
  if◌then◌else◌, any, drop, length, or_else, Text, codes, text_eq, starts_with, split, Result, ok,
  err,
}
use rootcell.Instance.Error.{Error}
use rootcell.Command.Copy.{CopyError}

pub data ArgsError : Type 0 where
  unknown_argument : Text → ArgsError
  yargs_failure : Text → ArgsError
  init_env_with_command : ArgsError
  invalid_provider : Text → ArgsError
  instance_with_select : ArgsError
  select_after_terminator : ArgsError
  invalid_argument_value : ArgsError
  invalid_name : Error → ArgsError
  invalid_copy : CopyError → ArgsError
  unknown_command : Text → Option Text → ArgsError

-- `-iname`
abbrev pub is_short_instance : Text → Bool
is_short_instance arg = starts_with arg (codes "-i") && ltb 2 (length arg)

-- The options whose value is the next argument.
unfoldable pub takes_value : Text → Bool
takes_value arg =
    text_eq arg (codes "--instance")
    || (text_eq arg (codes "-i")
        || (text_eq arg (codes "--init-env") || text_eq arg (codes "--get-yargs-completions")))

unfoldable pub has_instance_flag : List Text → Bool
has_instance_flag [] = false
has_instance_flag (arg ∷ args) =
    let rest = has_instance_flag args in
    if text_eq arg (codes "--")
    then false
    else if text_eq arg (codes "--instance")
        || (text_eq arg (codes "-i")
            || (starts_with arg (codes "--instance=") || is_short_instance arg))
    then true
    else rest

-- The first argument that is neither an option nor the value of one, and the arguments behind it;
-- `skip` is set where the next argument is a value.
unfoldable pub first_token_from : Bool → List Text → Option (Text × List Text)
first_token_from skip [] = none
first_token_from true (arg ∷ args) = first_token_from false args
first_token_from false (arg ∷ args) =
    let behind_value = first_token_from true args in
    let behind = first_token_from false args in
    if text_eq arg (codes "--")
    then none
    else if takes_value arg
    then behind_value
    else if starts_with arg (codes "-")
    then behind
    else some (arg, args)

abbrev pub first_rootcell_token_with_rest : List Text → Option (Text × List Text)
first_rootcell_token_with_rest args = first_token_from false args

unfoldable pub first_rootcell_token : List Text → Option Text
first_rootcell_token args = elim (first_rootcell_token_with_rest args) [
  | none ↦ none
  | some (token, rest) ↦ some token
]

-- `replace(/^-+/, "")`
abbrev pub drop_dashes : Text → Text
drop_dashes [] = []
drop_dashes (c ∷ s) = let rest = drop_dashes s in if c == b'-' then rest else c ∷ s

abbrev pub first_part : List Text → Text
first_part [] = []
first_part (part ∷ parts) = part

unfoldable pub unknown_option_name : Text → Text
unknown_option_name arg =
    let name = first_part (split b'=' (drop_dashes arg)) in
    if starts_with name (codes "no-") then drop 3 name else name

-- The options that `spy --help` knows and that take no next argument.
unfoldable pub is_known_spy_option : Text → Bool
is_known_spy_option arg =
    text_eq arg (codes "--help")
    || (text_eq arg (codes "--open")
        || (text_eq arg (codes "--no-open")
            || (starts_with arg (codes "--open=")
                || (starts_with arg (codes "--instance=")
                    || (starts_with arg (codes "--init-env=")
                        || (starts_with arg (codes "--get-yargs-completions=")
                            || is_short_instance arg))))))

-- The loop over the arguments behind `spy`.
unfoldable pub reject_unknown_from : Bool → List Text → Result ArgsError (Unit {0})
reject_unknown_from skip [] = ok tt
reject_unknown_from true (arg ∷ args) = reject_unknown_from false args
reject_unknown_from false (arg ∷ args) =
    let behind_value = reject_unknown_from true args in
    let behind = reject_unknown_from false args in
    if text_eq arg (codes "--")
    then ok tt
    else if not (starts_with arg (codes "-"))
    then behind
    else if takes_value arg
    then behind_value
    else if is_known_spy_option arg
    then behind
    else err (unknown_argument (unknown_option_name arg))

unfoldable pub reject_unknown_spy_help_options : List Text → Result ArgsError (Unit {0})
reject_unknown_spy_help_options args = elim (first_rootcell_token_with_rest args) [
  | none ↦ ok tt
  | some (token, rest) ↦
      if text_eq token (codes "spy") && any (λ arg. text_eq arg (codes "--help")) args
      then reject_unknown_from false rest
      else ok tt
]
