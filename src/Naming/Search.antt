-- ===== src/Naming/Search.antt =====
-- The search for the storage server of a path: `search_in_tries` and `search_storage_server`.
pub mod Defs
pub mod Lookup
