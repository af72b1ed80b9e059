-- ===== src/Config.antt =====
-- The configuration files of an instance: .env and secrets.env (src/rootcell/env.ts and
-- src/rootcell/init-env.ts), and extensions.txt (src/rootcell/extensions/config.ts).
pub mod Env
pub mod InitEnv
pub mod Extensions
mod Tests
