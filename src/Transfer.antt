-- ===== src/Transfer.antt =====
-- helper.c: copies of files and folders, between two storage servers and within one.
pub mod Text
pub mod Source
pub mod Send
pub mod Receive
pub mod Confirm
pub mod Pieces
pub mod Arriving
pub mod Content
pub mod Saved
pub mod Copied
pub mod Local
pub mod Same
pub mod Both
pub mod Refused
