-- ===== src/Naming/Async.antt =====
-- `listen_async`: the end of a write, which a storage server reports.
pub mod Defs
pub mod Messages
