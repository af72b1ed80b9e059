-- ===== src/Provider.antt =====
-- What the providers of VMs compute: the choice of a local port (src/rootcell/tunnels.ts), the
-- version of Lima (src/rootcell/providers/lima-version.ts), and the settings and the network of the
-- AWS provider (src/rootcell/providers/aws-ec2-config.ts, aws-ec2-network.ts).
pub mod Tunnels
pub mod LimaVersion
pub mod AwsEc2
mod Tests
