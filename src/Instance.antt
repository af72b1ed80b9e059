-- ===== src/Instance.antt =====
-- src/rootcell/instance.ts: instance names, IPv4 networks and the state of instances.
pub mod Error
pub mod Ipv4
pub mod Name
pub mod State
pub mod Disk
mod Tests
