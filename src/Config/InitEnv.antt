-- ===== src/Config/InitEnv.antt =====
-- src/rootcell/init-env.ts: the variables that `rootcell --init-env` writes into .env.
pub mod Kept
use rootcell.Prelude.{
  ℕ, zero, suc, ◌+◌, ◌-◌, Bool, true, false, not, ◌&&◌, ◌||◌, List, [], ◌∷◌, ◌++◌, Option, none,
  some, ◌==◌, ltb, if◌then◌else◌, length, or_else, is_some, Text, codes, text_eq, split, join,
  starts_with, find, filter, take,
}
use rootcell.Config.Env.{Env, lookup, cut_at}

pub record EnvAssignment : Type 0 where
  pub key : Text
  pub value : Text
  pub overwrite : Bool

pub data ProviderType : Type 0 where
  macos_lima : ProviderType
  aws_ec2 : ProviderType

abbrev pub first_of : Env → List Text → Text → Text
first_of env [] default = default
first_of env (key ∷ keys) default = or_else (lookup key env) (first_of env keys default)

unfoldable pub provider_env_assignments : ProviderType → Env → List EnvAssignment
provider_env_assignments aws_ec2 env =
    record { key = codes "ROOTCELL_VM_PROVIDER"; value = codes "aws-ec2"; overwrite = true }
    ∷ record {
      key = codes "ROOTCELL_AWS_PROFILE";
      value =
          first_of env (codes "ROOTCELL_AWS_PROFILE" ∷ codes "AWS_PROFILE" ∷ []) (codes "default");
      overwrite = false;
    }
    ∷ record {
      key = codes "ROOTCELL_AWS_REGION";
      value =
          first_of env
            (codes "ROOTCELL_AWS_REGION" ∷ codes "AWS_REGION" ∷ codes "AWS_DEFAULT_REGION" ∷ [])
            (codes "us-east-1");
      overwrite = false;
    }
    ∷ record {
      key = codes "ROOTCELL_AWS_CONTROL_CIDR";
      value = first_of env (codes "ROOTCELL_AWS_CONTROL_CIDR" ∷ []) (codes "auto");
      overwrite = false;
    }
    ∷ []
provider_env_assignments macos_lima env =
    record { key = codes "ROOTCELL_VM_PROVIDER"; value = codes "lima"; overwrite = true } ∷ []

-- `text.replace(/\r\n/g, "\n")`
unfoldable pub unix_newlines : Text → Text
unix_newlines [] = []
unix_newlines (c ∷ []) = c ∷ []
unix_newlines (c ∷ d ∷ s) =
    let rest = unix_newlines (d ∷ s) in if c == b'\r' && d == b'\n' then rest else c ∷ rest

-- `text.replace(/\n$/, "")`
unfoldable pub without_last_newline : Text → Text
without_last_newline [] = []
without_last_newline (c ∷ []) = if c == b'\n' then [] else c ∷ []
without_last_newline (c ∷ d ∷ s) = c ∷ without_last_newline (d ∷ s)

unfoldable pub lines_of : Text → List Text
lines_of text =
    if length text == 0 then [] else split b'\n' (without_last_newline (unix_newlines text))

abbrev pub has_key : Text → EnvAssignment → Bool
has_key key a = text_eq a.key key

unfoldable pub key_of_line : Text → Text
key_of_line line = elim (cut_at b'=' line) [ none ↦ line | some (key, _) ↦ key ]

abbrev pub assignment_text : EnvAssignment → Text
assignment_text a = a.key ++ (codes "=" ++ a.value)

-- One round of the `map` over the lines: the new line, and the assignments that stay pending.
unfoldable pub upsert_line : List EnvAssignment → Text → Text × List EnvAssignment
upsert_line pending line =
    let key = key_of_line line in
    if starts_with line (codes "#") then (line, pending) else elim (find (has_key key) pending) [
      | none ↦ (line, pending)
      | some a ↦ (
        if a.overwrite then assignment_text a else line,
        filter (λ b. not (has_key key b)) pending,
      )
    ]

unfoldable pub upsert_lines : List EnvAssignment → List Text → List Text × List EnvAssignment
upsert_lines pending [] = ([], pending)
upsert_lines pending (line ∷ lines) =
    let (next, left) = upsert_line pending line in
    let (nexts, last) = upsert_lines left lines in (next ∷ nexts, last)

-- An empty line in front of the comment, if the last line is not empty.
unfoldable pub separator_of : List Text → List Text
separator_of [] = []
separator_of (line ∷ []) = if length line == 0 then [] else [] ∷ []
separator_of (line ∷ next ∷ lines) = separator_of (next ∷ lines)

abbrev pub texts_of : List EnvAssignment → List Text
texts_of [] = []
texts_of (a ∷ more) = assignment_text a ∷ texts_of more

-- The keys of `assignments` are distinct, so the pending ones stand in their order.
unfoldable pub append_pending : List Text → List EnvAssignment → Text → List Text
append_pending lines [] comment = lines
append_pending lines (a ∷ more) comment =
    lines ++ (separator_of lines ++ comment ∷ texts_of (a ∷ more))

unfoldable pub upsert_env_assignments : Text → List EnvAssignment → Text → Text
upsert_env_assignments text assignments comment =
    let (lines, pending) = upsert_lines assignments (lines_of text) in
    join b'\n' (append_pending lines pending comment) ++ codes "\n"
