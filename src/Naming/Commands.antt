-- ===== src/Naming/Commands.antt =====
-- naming_server.c, `process_client`: one command of a client, with a function for each branch.
pub mod Text
pub mod Backup
pub mod Create
pub mod Remove
pub mod Lookup
pub mod Dispatch
pub mod Replies
pub mod Created
pub mod Removed
