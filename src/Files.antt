-- ===== src/Files.antt =====
-- helper.c: the operations on the files of a storage server, and what it sends of them.
pub mod Operations
pub mod Replies
pub mod Sender
pub mod Listing
pub mod Reading
pub mod Metadata
