-- ===== src/Spy/Store/Queries.antt =====
-- The queries of src/spy/store.ts.
pub mod Pages
pub mod Calls
pub mod Listing
pub mod Diff
pub mod Classes
pub mod Composition
pub mod Search
pub mod Patterns
pub mod Sections
pub mod Sums
pub mod Pass
