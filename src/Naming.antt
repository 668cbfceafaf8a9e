-- ===== src/Naming.antt =====
-- naming_server.c: the cache of path lookups, the table of storage servers, the search for the
-- server of a path, the registration of servers and the commands of clients.
pub mod Cache
pub mod World
pub mod Valid
pub mod Ping
pub mod Backups
pub mod Search
pub mod Index
pub mod Register
pub mod Commands
pub mod Copy
pub mod Async
pub mod System
