-- ===== src/Provider/AwsEc2.antt =====
-- `parseRootcellVmProvider` and `parseAwsEc2Config` of src/rootcell/providers/aws-ec2-config.ts with
-- `isIpv4Cidr` of src/rootcell/types.ts, and `plan` and `awsVpcRouterIp` of
-- src/rootcell/providers/aws-ec2-network.ts.
pub mod Plan
pub mod Router
use rootcell.Prelude.{
  ℕ, ◌+◌, Bool, true, false, not, ◌&&◌, ◌||◌, List, [], ◌∷◌, ◌++◌, Option, none, some, ◌==◌, ltb,
  leb, if◌then◌else◌, length, all, or_else, Text, codes, text_eq, split, before_last, Result, ok,
  err, throw_if, ◌>>=◌, ◌>>◌,
}
use rootcell.Prelude.Decimal.{is_digit, number}
use rootcell.Config.Env.{Env, lookup}

pub data AwsError : Type 0 where
  invalid_provider_name : Text → AwsError
  missing_variable : Text → AwsError
  not_a_positive_integer : Text → AwsError
  invalid_aws_config : AwsError

pub data VmProviderId : Type 0 where
  lima : VmProviderId
  aws_ec2_provider : VmProviderId

abbrev pub is_blank : Option Text → Bool
is_blank none = true
is_blank (some t) = length t == 0

unfoldable pub parse_rootcell_vm_provider : Env → Result AwsError VmProviderId
parse_rootcell_vm_provider env =
    let raw = or_else (lookup (codes "ROOTCELL_VM_PROVIDER") env) [] in
    if length raw == 0
    then ok lima
    else if text_eq raw (codes "lima")
    then ok lima
    else if text_eq raw (codes "aws-ec2")
    then ok aws_ec2_provider
    else err (invalid_provider_name raw)

-- `/^[0-9]+$/`
abbrev pub is_numeral : Text → Bool
is_numeral t = ltb 0 (length t) && all is_digit t

unfoldable pub is_ipv4_cidr : Text → Bool
is_ipv4_cidr value = elim (split b'/' value) [
  | address ∷ prefix ∷ [] ↦
      is_numeral prefix
      && leb (number prefix) 32
      && length (split b'.' address) == 4
      && all (λ octet. is_numeral octet && leb (number octet) 255) (split b'.' address)
  | _ ↦ false
]

unfoldable pub required_env : Env → Text → Result AwsError Text
required_env env name =
    let value = or_else (lookup name env) [] in
    if length value == 0 then err (missing_variable name) else ok value

-- `/^[1-9][0-9]*$/`
unfoldable pub is_positive_numeral : Text → Bool
is_positive_numeral [] = false
is_positive_numeral (c ∷ rest) = leb b'1' c && leb c b'9' && all is_digit rest

unfoldable pub positive_integer_env : Env → Text → ℕ → Result AwsError ℕ
positive_integer_env env name default =
    let raw = or_else (lookup name env) [] in
    if length raw == 0
    then ok default
    else if not (is_positive_numeral raw)
    then err (not_a_positive_integer name)
    else ok (number raw)

pub record AwsEc2Config : Type 0 where
  pub profile : Text
  pub region : Text
  pub control_cidr : Text
  pub agent_instance_type : Text
  pub firewall_instance_type : Text
  pub agent_root_volume_gib : ℕ
  pub firewall_root_volume_gib : ℕ
  pub nixos_ami_owner_id : Text
  pub nixos_ami_name_pattern : Text

-- `AwsEc2ConfigSchema`, for numbers that JavaScript holds exactly.
unfoldable pub fits_aws_schema : AwsEc2Config → Bool
fits_aws_schema c =
    ltb 0 (length c.profile)
    && ltb 0 (length c.region)
    && (text_eq c.control_cidr (codes "auto") || is_ipv4_cidr c.control_cidr)
    && ltb 0 (length c.agent_instance_type)
    && ltb 0 (length c.firewall_instance_type)
    && ltb 0 c.agent_root_volume_gib
    && ltb 0 c.firewall_root_volume_gib
    && ltb 0 (length c.nixos_ami_owner_id)
    && ltb 0 (length c.nixos_ami_name_pattern)

unfoldable pub parse_aws_ec2_config : Env → Result AwsError AwsEc2Config
parse_aws_ec2_config env = do
  profile ← required_env env (codes "ROOTCELL_AWS_PROFILE")
  region ← required_env env (codes "ROOTCELL_AWS_REGION")
  agent_gib ← positive_integer_env env (codes "ROOTCELL_AWS_AGENT_ROOT_VOLUME_GIB") 60
  firewall_gib ← positive_integer_env env (codes "ROOTCELL_AWS_FIREWALL_ROOT_VOLUME_GIB") 64
  let config : AwsEc2Config = record {
    profile = profile;
    region = region;
    control_cidr = or_else (lookup (codes "ROOTCELL_AWS_CONTROL_CIDR") env) (codes "auto");
    agent_instance_type =
        or_else (lookup (codes "ROOTCELL_AWS_AGENT_INSTANCE_TYPE") env) (codes "t4g.2xlarge");
    firewall_instance_type =
        or_else (lookup (codes "ROOTCELL_AWS_FIREWALL_INSTANCE_TYPE") env) (codes "t4g.small");
    agent_root_volume_gib = agent_gib;
    firewall_root_volume_gib = firewall_gib;
    nixos_ami_owner_id =
        or_else (lookup (codes "ROOTCELL_AWS_NIXOS_AMI_OWNER_ID") env) (codes "427812963091");
    nixos_ami_name_pattern =
        or_else (lookup (codes "ROOTCELL_AWS_NIXOS_AMI_NAME_PATTERN") env) (codes "nixos/26.05*");
  }
  throw_if (not (fits_aws_schema config)) invalid_aws_config
  ok config
