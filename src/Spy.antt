-- ===== src/Spy.antt =====
-- src/spy: the service that captures and decodes the provider traffic of the agent.
pub mod Bytes
pub mod Records
pub mod Tokens
pub mod EventStream
pub mod Compaction
pub mod Cursor
pub mod Store
pub mod Service
mod Tests
