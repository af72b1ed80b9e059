-- ===== src/Spy/Service.antt =====
-- src/spy/service.ts: the web service of the spy.
pub mod Pool
pub mod Invariant
pub mod Runs
pub mod Subjects
mod Tests
