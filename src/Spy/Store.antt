-- ===== src/Spy/Store.antt =====
-- src/spy/store.ts: the database of the spy. A table is the list of its rows in the order of
-- insertion, and an SQL statement of the code is the list operation that it describes. A statement
-- that violates a key or a reference fails, and a transaction that fails leaves the database as it
-- was: `Result StoreError Db` is what a transaction commits.
pub mod Order
pub mod Tables
pub mod Persist
pub mod Ingest
pub mod Retention
pub mod Consistency
pub mod Status
pub mod Queries
mod Tests
pub mod Tokens
