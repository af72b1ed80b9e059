-- ===== src/Instance/Name.antt =====
-- Instance names: `validateInstanceName`, `deriveVmNames`, and the file that holds the selected
-- instance, of src/rootcell/instance.ts.
pub mod Laws
pub mod Selection
use rootcell.Prelude.{
  ℕ, ◌+◌, ◌≡◌, refl, Bool, true, false, not, ◌&&◌, ◌||◌, List, [], ◌∷◌, ◌++◌, Option, none, some,
  ◌==◌, ltb, leb, if◌then◌else◌, length, all, Text, codes, text_eq, split_lines, Result, ok, err,
  throw_if, ◌>>=◌, ◌>>◌,
}
use rootcell.Prelude.Decimal.{is_digit}
use rootcell.Instance.Error.{
  Error, invalid_instance_name, empty_content, multiple_lines, embedded_whitespace,
}

abbrev pub default_instance : Text
default_instance = codes "default"

abbrev pub is_lower : ℕ → Bool
is_lower c = leb b'a' c && leb c b'z'

-- `[a-z0-9]` and `[a-z0-9-]`
abbrev pub is_name_end : ℕ → Bool
is_name_end c = is_lower c || is_digit c

abbrev pub is_name_unit : ℕ → Bool
is_name_unit c = is_name_end c || c == b'-'

abbrev pub last_or : ℕ → Text → ℕ
last_or c [] = c
last_or c (x ∷ xs) = last_or x xs

-- `/^[a-z](?:[a-z0-9-]{0,30}[a-z0-9])?$/`: behind the first letter nothing, or at most 31 units
-- of which the last is no dash.
unfoldable pub is_instance_name : Text → Bool
is_instance_name [] = false
is_instance_name (c ∷ rest) =
    is_lower c && (leb (length rest) 31 && (all is_name_unit rest && is_name_end (last_or c rest)))

unfoldable pub validate_instance_name : Text → Result Error Text
unfolding is_instance_name
validate_instance_name name =
    if not (is_instance_name name) then err (invalid_instance_name name) else ok name

pub record VmNames : Type 0 where
  pub agent_vm : Text
  pub firewall_vm : Text

unfoldable pub derive_vm_names : Text → Result Error VmNames
unfolding validate_instance_name
derive_vm_names instance_name = do
  _ ← validate_instance_name instance_name
  ok (
      if text_eq instance_name default_instance
      then record { agent_vm = codes "agent"; firewall_vm = codes "firewall" }
      else record {
        agent_vm = codes "agent-" ++ instance_name;
        firewall_vm = codes "firewall-" ++ instance_name;
      })
