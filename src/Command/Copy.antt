-- ===== src/Command/Copy.antt =====
-- src/rootcell/copy.ts: the operands of the copy command.
pub mod Laws
use rootcell.Prelude.{
  ℕ, Bool, true, false, not, ◌&&◌, List, [], ◌∷◌, Option, none, some, ◌==◌, ltb, if◌then◌else◌, any,
  all, drop, length, Text, codes, text_eq, starts_with, Result, ok, err, throw_if, ◌>>=◌, ◌>>◌,
}

pub data CopyError : Type 0 where
  too_few_operands : CopyError
  empty_guest_path : CopyError
  mixed_sources : CopyError
  same_sides : CopyError

pub data CopyDirection : Type 0 where
  host_to_guest : CopyDirection
  guest_to_host : CopyDirection

pub record RootcellCopySpec : Type 0 where
  pub sources : List Text
  pub target : Text
  pub direction : CopyDirection

unfoldable pub is_rootcell_guest_copy_path : Text → Bool
is_rootcell_guest_copy_path value = starts_with value (codes ":")

abbrev pub bool_eq : Bool → Bool → Bool
bool_eq true b = b
bool_eq false b = not b

-- `operands.slice(0, -1)` and `operands[operands.length - 1]`
unfoldable pub split_last : Text → List Text → List Text × Text
split_last operand [] = ([], operand)
split_last operand (next ∷ operands) =
    let (sources, target) = split_last next operands in (operand ∷ sources, target)

abbrev pub is_guest_source : List Text → Bool
is_guest_source [] = false
is_guest_source (source ∷ sources) = is_rootcell_guest_copy_path source

-- The tests on the sources and the target, given whether the first source is a guest path.
unfoldable pub copy_sides : Bool → List Text → Text → Result CopyError RootcellCopySpec
copy_sides first sources target = do
  throw_if (not (all (λ source. bool_eq (is_rootcell_guest_copy_path source) first) sources))
      mixed_sources
  throw_if (bool_eq first (is_rootcell_guest_copy_path target)) same_sides
  ok (record {
    sources = sources;
    target = target;
    direction = if first then guest_to_host else host_to_guest;
  })

unfoldable pub copy_spec : List Text → Text → Result CopyError RootcellCopySpec
copy_spec sources target = copy_sides (is_guest_source sources) sources target

unfoldable pub parse_rootcell_copy_spec : List Text → Result CopyError RootcellCopySpec
parse_rootcell_copy_spec [] = err too_few_operands
parse_rootcell_copy_spec (operand ∷ []) = err too_few_operands
parse_rootcell_copy_spec (operand ∷ next ∷ operands) = do
  let all_operands = operand ∷ next ∷ operands
  throw_if (any (λ o. text_eq o (codes ":")) all_operands) empty_guest_path
  let (sources, target) = split_last operand (next ∷ operands)
  copy_spec sources target

unfoldable pub rootcell_guest_copy_path : Text → Result CopyError Text
rootcell_guest_copy_path value =
    if not (is_rootcell_guest_copy_path value)
    then ok value
    else if text_eq value (codes ":")
    then err empty_guest_path
    else ok (drop 1 value)
