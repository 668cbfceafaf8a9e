-- ===== src/Naming/Copy.antt =====
-- `handle_copy_request`: the copies that clients ask for, and those to a new backup server.
pub mod Defs
pub mod Words
pub mod Messages
pub mod Branches
pub mod Read
pub mod Whole
