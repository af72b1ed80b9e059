-- ===== src/Spy/Cursor.antt =====
-- The readers of src/spy/cursor.ts: protobuf fields without a schema, Connect envelopes, and the
-- JSON objects inside a text.
pub mod Varint
pub mod Proto
pub mod Connect
pub mod Json
