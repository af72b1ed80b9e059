-- ===== src/Command/Tests.antt =====
-- The theorems about the command line at concrete inputs.
use rootcell.Prelude.{
  ◌≡◌, false, List, [], ◌∷◌, none, some, codes, Text, Result, ok, err, OnOk, ◌↔◌,
}
use rootcell.Command.Copy.{RootcellCopySpec, host_to_guest, parse_rootcell_copy_spec}
use rootcell.Command.Copy.Laws.{IsCopy, parse_rootcell_copy_spec_iff}
use rootcell.Command.Args.{ArgsError, yargs_failure}
use rootcell.Command.Args.Parse.{Argv, parse_rootcell_args}
use rootcell.Command.Args.Laws.{IsParsed, parse_rootcell_args-IsParsed}

abbrev copy_operands : List Text
copy_operands = codes "./file" ∷ codes ":/tmp/" ∷ []

abbrev copied : RootcellCopySpec
copied = record {
  sources = codes "./file" ∷ [];
  target = codes ":/tmp/";
  direction = host_to_guest;
}

parse_rootcell_copy_spec_iff_example :
    (parse_rootcell_copy_spec copy_operands ≡ ok copied) ↔ IsCopy copy_operands copied
parse_rootcell_copy_spec_iff_example = parse_rootcell_copy_spec_iff copy_operands copied

-- A parser for the one command line `copy ./file :/tmp/`.
abbrev copy_argv : Argv
copy_argv = record {
  help = false;
  completions = none;
  words = codes "copy" ∷ [];
  after_terminator = [];
  command = [];
  instance_values = codes "dev" ∷ [];
  init_env = [];
  open_browser = none;
  recursive = some false;
  target = none;
  extension_args = [];
  copy_args = copy_operands;
  selected_instance = none;
}

abbrev test_yargs : List Text → Result ArgsError Argv
test_yargs [] = err (yargs_failure [])
test_yargs (arg ∷ args) = ok copy_argv

abbrev copy_line : List Text
copy_line = codes "--instance" ∷ codes "dev" ∷ codes "copy" ∷ copy_operands

parse_rootcell_args-IsParsed_example :
    OnOk
      (λ parsed. (argv : Argv) × (test_yargs copy_line ≡ ok argv) × IsParsed copy_line argv parsed)
      (parse_rootcell_args test_yargs copy_line)
parse_rootcell_args-IsParsed_example = parse_rootcell_args-IsParsed test_yargs copy_line
