-- ===== src/Provider/AwsEc2/Plan.antt =====
-- The network of the AWS provider: `plan` and `awsVpcRouterIp` of
-- src/rootcell/providers/aws-ec2-network.ts, on the addresses of an instance.
use rootcell.Prelude.{ℕ, Bool, true, false, List, [], ◌∷◌, ◌++◌, Text, codes, before_last}

pub record AwsEc2NetworkAttachment : Type 0 where
  pub role : Text
  pub private_ip : Text
  pub private_interface : Text
  pub has_public_control_interface : Bool
  pub has_egress : Bool

pub record NetworkPlan : Type 0 where
  pub firewall_ip : Text
  pub agent_ip : Text
  pub agent_default_gateway_ip : Text
  pub network_prefix : ℕ
  pub agent_private_interface : Text
  pub firewall_private_interface : Text
  pub firewall_egress_interface : Text
  pub firewall_control_interface : Text
  pub firewall_upstream_dns : List Text
  pub agent : AwsEc2NetworkAttachment
  pub firewall : AwsEc2NetworkAttachment

unfoldable pub aws_vpc_router_ip : Text → Text
aws_vpc_router_ip firewall_ip = before_last b'.' firewall_ip ++ codes ".1"

unfoldable pub plan : Text → Text → NetworkPlan
plan firewall_ip agent_ip = record {
  firewall_ip = firewall_ip;
  agent_ip = agent_ip;
  agent_default_gateway_ip = aws_vpc_router_ip firewall_ip;
  network_prefix = 24;
  agent_private_interface = codes "ens5";
  firewall_private_interface = codes "ens6";
  firewall_egress_interface = codes "ens5";
  firewall_control_interface = codes "ens5";
  firewall_upstream_dns = codes "1.1.1.1" ∷ codes "8.8.8.8" ∷ [];
  agent = record {
    role = codes "agent";
    private_ip = agent_ip;
    private_interface = codes "ens5";
    has_public_control_interface = false;
    has_egress = false;
  };
  firewall = record {
    role = codes "firewall";
    private_ip = firewall_ip;
    private_interface = codes "ens6";
    has_public_control_interface = true;
    has_egress = true;
  };
}
