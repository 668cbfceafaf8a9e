-- ===== src/Storage.antt =====
-- storage_server.c: the table of locks, the writes, and the commands of the naming server.
pub mod Locks
pub mod Write
pub mod Async
pub mod Appended
pub mod Index
pub mod Listing
pub mod Listen
pub mod Protocol
pub mod Perform
pub mod Removed
pub mod Requests
pub mod Served
pub mod Acknowledged
