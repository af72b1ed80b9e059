-- ===== src/Command.antt =====
-- The command line of rootcell: src/rootcell/args.ts and src/rootcell/copy.ts.
pub mod Copy
pub mod Args
mod Tests
