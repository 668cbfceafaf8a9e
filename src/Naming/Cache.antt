-- ===== src/Naming/Cache.antt =====
-- naming_server.c, `LRUCache` and its functions.
pub mod Defs
pub mod Array
pub mod View
