-- ===== src/Command/Args/Laws.antt =====
-- What holds of a command line that is accepted.
use rootcell.Prelude.{
  ◌≡◌, refl, sym, ap, subst, ◌∙◌, true, false, ◌||◌, List, [], ◌∷◌, Option, none, some, is_some,
  ltb, length, Text, codes, text_eq, starts_with, Result, ok, err, arith, Bool-cases, Option-cases,
  inl, inr, ◌⊎◌, OnOk, OnOk-bind, OnOk-after, OnOk-throw_if, OnOk-of, or_else, text_eq_iff,
  >>=-eq-ok,
}
use rootcell.Instance.Name.{is_instance_name, validate_instance_name, default_instance}
use rootcell.Command.Copy.{RootcellCopySpec, parse_rootcell_copy_spec}
use rootcell.Command.Args.{
  ArgsError, init_env_with_command, instance_with_select, select_after_terminator, invalid_copy,
  has_instance_flag, reject_unknown_spy_help_options,
}
use rootcell.Command.Args.Parse.{
  Argv, ParsedRootcellArgs, ParsedRootcellRunArgs, handled, init_env_args, select_args, run_args,
  map_error, valid_name, instance_name, arg_string, parsed_subcommand, provider_type,
  parse_init_env, parse_select, validated_copy_args, rest_of, parse_subcommand, parse_guest,
  guest_words, is_handled, last_string, parse_argv, parse_rootcell_args,
}

abbrev pub IsValidName : Text → Type 0
IsValidName name = is_instance_name name ≡ true

-- What is left of the command for a subcommand: for copy, operands that it accepts.
abbrev pub IsRest : Text → Argv → List Text → Type 0
IsRest subcommand argv rest =
    (text_eq subcommand (codes "copy") ≡ false)
    ⊎ ((rest ≡ argv.copy_args)
        × ((spec : RootcellCopySpec) × (parse_rootcell_copy_spec argv.copy_args ≡ ok spec)))

abbrev pub IsRun : Argv → ParsedRootcellRunArgs → Type 0
IsRun argv run =
    ((run.subcommand ≡ []) × (guest_words argv ≡ []) × (run.rest ≡ argv.after_terminator))
    ⊎ ((parsed_subcommand argv ≡ some run.subcommand)
        × (text_eq run.subcommand (codes "select") ≡ false)
        × IsRest run.subcommand argv run.rest)

-- What an accepted command line says of the arguments and of what yargs made of them.
abbrev pub IsParsed : List Text → Argv → ParsedRootcellArgs → Type 0
IsParsed args argv handled = is_handled args argv ≡ true
IsParsed args argv (init_env_args name provider) =
    IsValidName name
    × (parsed_subcommand argv ≡ none)
    × (argv.command ≡ [])
    × (argv.after_terminator ≡ [])
IsParsed args argv (select_args name) =
    IsValidName name × (has_instance_flag args ≡ false) × (argv.after_terminator ≡ [])
IsParsed args argv (run_args run) = IsValidName run.instance_name × IsRun argv run

valid_name-OnOk : (name : Text) → OnOk IsValidName (valid_name name)
unfolding validate_instance_name
valid_name-OnOk name = elim (Bool-cases (is_instance_name name)) [
  | inl e ↦ rw (validate_instance_name, e) e
  | inr e ↦ rw (validate_instance_name, e) tt
]

nil_of : (xs : List Text) → ltb 0 (length xs) ≡ false → xs ≡ []
nil_of [] h = refl
nil_of (x ∷ xs) h = absurd (ground arith)

none_of : {A : Type 0} (o : Option A) → is_some o ≡ false → o ≡ none
none_of none h = refl
none_of (some a) h = absurd (cc)

parse_init_env-OnOk :
    (args : List Text) (argv : Argv) (init_env : Text)
    → OnOk (IsParsed args argv) (parse_init_env argv init_env)
unfolding parse_init_env instance_name
parse_init_env-OnOk args argv init_env =
    OnOk-throw_if (IsParsed args argv)
      (is_some (parsed_subcommand argv)
        || (ltb 0 (length argv.command) || ltb 0 (length argv.after_terminator)))
      init_env_with_command _
      λ clear.
        OnOk-bind IsValidName (IsParsed args argv) _ _
          (valid_name-OnOk (or_else (last_string argv.instance_values) default_instance))
          λ name valid. OnOk-after (IsParsed args argv) (provider_type init_env) _ λ provider. (
            valid,
            none_of (parsed_subcommand argv) (ground arith),
            nil_of argv.command (ground arith),
            nil_of argv.after_terminator (ground arith),
          )

parse_select-OnOk :
    (args : List Text) (argv : Argv) → OnOk (IsParsed args argv) (parse_select args argv)
unfolding parse_select
parse_select-OnOk args argv =
    OnOk-throw_if (IsParsed args argv) (has_instance_flag args) instance_with_select _ λ no_flag.
      OnOk-throw_if (IsParsed args argv) (ltb 0 (length argv.after_terminator))
        select_after_terminator _
        λ empty. OnOk-after (IsParsed args argv) (arg_string argv.selected_instance) _ λ selected.
          OnOk-bind IsValidName (IsParsed args argv) _ _ (valid_name-OnOk selected)
            λ name valid. (valid, no_flag, nil_of argv.after_terminator empty)

rest_of_copy : (argv : Argv) → rest_of (codes "copy") argv ≡ validated_copy_args argv
unfolding rest_of text_eq
rest_of_copy argv = refl

map_error-eq-ok :
    {A E F : Type 0} (f : E → F) (r : Result E A) (a : A) → map_error f r ≡ ok a → r ≡ ok a
map_error-eq-ok f (ok b) a e = cc
map_error-eq-ok f (err b) a e = absurd (cc)

rest_of-OnOk :
    (subcommand : Text) (argv : Argv) → OnOk (IsRest subcommand argv) (rest_of subcommand argv)
unfolding validated_copy_args
rest_of-OnOk subcommand argv = OnOk-of (IsRest subcommand argv) (rest_of subcommand argv) λ rest e.
    elim (Bool-cases (text_eq subcommand (codes "copy"))) [
      | inr other ↦ inl other
      | inl copy ↦
          let is_copy = (text_eq_iff subcommand (codes "copy")).0 copy in
          let validated : validated_copy_args argv ≡ ok rest =
            sym (rest_of_copy argv) ∙ ap (λ s. rest_of s argv) (sym is_copy) ∙ e in
          let (spec, parsed, found) =
            >>=-eq-ok (map_error invalid_copy (parse_rootcell_copy_spec argv.copy_args))
              (λ _. ok argv.copy_args) validated in
          inr (
            cc,
            (
              spec,
              map_error-eq-ok invalid_copy (parse_rootcell_copy_spec argv.copy_args) spec parsed,
            ),
          )
    ]

parse_subcommand-OnOk :
    (args : List Text) (subcommand : Text) (argv : Argv)
    → parsed_subcommand argv ≡ some subcommand
    → text_eq subcommand (codes "select") ≡ false
    → OnOk (IsParsed args argv) (parse_subcommand subcommand argv)
unfolding parse_subcommand instance_name
parse_subcommand-OnOk args subcommand argv is other =
    OnOk-bind (IsRest subcommand argv) (IsParsed args argv) _ _ (rest_of-OnOk subcommand argv)
      λ rest left.
        OnOk-bind IsValidName (IsParsed args argv) _ _
          (valid_name-OnOk (or_else (last_string argv.instance_values) default_instance))
          λ name valid. (valid, inr (is, other, left))

parse_guest-OnOk : (args : List Text) (argv : Argv) → OnOk (IsParsed args argv) (parse_guest argv)
unfolding parse_guest instance_name
parse_guest-OnOk args argv = elim (words_cases (guest_words argv)) [
  | inl e ↦
      rw (parse_guest, e)
        (OnOk-bind IsValidName (IsParsed args argv) _ _
          (valid_name-OnOk (or_else (last_string argv.instance_values) default_instance))
          λ name valid. (valid, inl (refl, e, refl)))
  | inr (first, words, e) ↦ elim (Bool-cases (starts_with first (codes "-"))) [
    | inl dash ↦ rw (parse_guest, e, dash) tt
    | inr word ↦ rw (parse_guest, e, word) tt
  ]
]
  where
    words_cases : (xs : List Text) → (xs ≡ []) ⊎ ((x : Text) × (ys : List Text) × (xs ≡ x ∷ ys))
    words_cases [] = inl refl
    words_cases (x ∷ xs) = inr (x, xs, refl)

parse_argv-OnOk :
    (args : List Text) (argv : Argv) → OnOk (IsParsed args argv) (parse_argv args argv)
unfolding parse_argv
parse_argv-OnOk args argv = elim (Bool-cases (is_handled args argv)) [
  | inl e ↦ rw (parse_argv, e) e
  | inr e ↦ elim (Option-cases (last_string argv.init_env)) [
    | inr (init_env, i) ↦ rw (parse_argv, e, i) (parse_init_env-OnOk args argv init_env)
    | inl i ↦ elim (Option-cases (parsed_subcommand argv)) [
      | inl s ↦ rw (parse_argv, e, i, s) (parse_guest-OnOk args argv)
      | inr (subcommand, s) ↦ elim (Bool-cases (text_eq subcommand (codes "select"))) [
        | inl select ↦ rw (parse_argv, e, i, s, select) (parse_select-OnOk args argv)
        | inr other ↦
            rw (parse_argv, e, i, s, other) (parse_subcommand-OnOk args subcommand argv s other)
      ]
    ]
  ]
]

-- An accepted command line asks for help or completion; or it initialises the environment of an
-- instance with a valid name, and there is no command; or it selects a valid name, without a flag
-- for the instance and without arguments behind `--`; or it runs something for an instance with a
-- valid name: what stands behind `--` in the guest, where there are no other words, or a subcommand
-- other than select, the operands of copy being ones that it accepts.
pub parse_rootcell_args-IsParsed :
    (yargs : List Text → Result ArgsError Argv) (args : List Text)
    → OnOk
        (λ parsed. (argv : Argv) × (yargs args ≡ ok argv) × IsParsed args argv parsed)
        (parse_rootcell_args yargs args)
unfolding parse_rootcell_args
parse_rootcell_args-IsParsed yargs args = OnOk-after _ (reject_unknown_spy_help_options args) _ λ _.
    OnOk-bind (λ argv. yargs args ≡ ok argv) _ (yargs args) _ (OnOk-of _ (yargs args) (λ argv e. e))
      λ argv e.
        OnOk-of _ (parse_argv args argv)
          λ parsed is. (argv, e, subst (OnOk (IsParsed args argv)) is (parse_argv-OnOk args argv))
