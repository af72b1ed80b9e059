-- ===== src/Instance/Name/Laws.antt =====
-- Accepted names, and the names of the virtual machines of instances.
use rootcell.Prelude.{
  ◌≡◌, ◌≢◌, sym, ◌∙◌, true, ◌++◌, [], ◌∷◌, arith, Text, codes, text_eq, text_eq_iff, ok,
  if◌then◌else◌,
}
use rootcell.Instance.Name.{
  default_instance, is_instance_name, validate_instance_name, VmNames, derive_vm_names,
}

pub validate_instance_name-eq-ok :
    (name : Text) {valid : Text}
    → validate_instance_name name ≡ ok valid
    → (valid ≡ name) × (is_instance_name name ≡ true)
unfolding validate_instance_name
validate_instance_name-eq-ok name h = ground arith

-- The names in one role, as `derive_vm_names` forms them.
abbrev vm_name : Text → Text → Text
vm_name role name = if text_eq name default_instance then role else role ++ (b'-' ∷ name)

append_dash_ne : (role name : Text) → role ≢ role ++ (b'-' ∷ name)
append_dash_ne [] name h = cc
append_dash_ne (c ∷ role) name h = append_dash_ne role name (cc)

append_dash_cancel : (role a b : Text) → role ++ (b'-' ∷ a) ≡ role ++ (b'-' ∷ b) → a ≡ b
append_dash_cancel [] a b h = cc
append_dash_cancel (c ∷ role) a b h = append_dash_cancel role a b (cc)

vm_name_injective : (role a b : Text) → vm_name role a ≡ vm_name role b → a ≡ b
vm_name_injective role a b h = ground (
  arith,
  text_eq_iff a default_instance,
  text_eq_iff b default_instance,
  append_dash_ne role a,
  append_dash_ne role b,
  append_dash_cancel role a b,
)

derive_vm_names-eq-ok :
    (name : Text) {vms : VmNames}
    → derive_vm_names name ≡ ok vms
    → (vms.agent_vm ≡ vm_name (codes "agent") name)
      × (vms.firewall_vm ≡ vm_name (codes "firewall") name)
unfolding derive_vm_names
derive_vm_names-eq-ok name h = ground arith

vm_roles_differ : (a b : Text) → vm_name (codes "agent") a ≢ vm_name (codes "firewall") b
vm_roles_differ a b = ground arith

-- The virtual machines of two instances of different names have four different names.
pub derive_vm_names_distinct :
    (a b : Text) (va vb : VmNames)
    → derive_vm_names a ≡ ok va
    → derive_vm_names b ≡ ok vb
    → a ≢ b
    → (va.agent_vm ≢ vb.agent_vm)
      × (va.firewall_vm ≢ vb.firewall_vm)
      × (va.agent_vm ≢ vb.firewall_vm)
      × (va.agent_vm ≢ va.firewall_vm)
derive_vm_names_distinct a b va vb ha hb ne =
    let (aa, fa) = derive_vm_names-eq-ok a ha in
    let (ab, fb) = derive_vm_names-eq-ok b hb in
    (
      λ h. ne (vm_name_injective (codes "agent") a b (sym aa ∙ h ∙ ab)),
      λ h. ne (vm_name_injective (codes "firewall") a b (sym fa ∙ h ∙ fb)),
      λ h. vm_roles_differ a b (sym aa ∙ h ∙ fb),
      λ h. vm_roles_differ a a (sym aa ∙ h ∙ fa),
    )
