-- ===== src/Tries.antt =====
-- tries.c and tries.h: the tree of path names that the naming server keeps for a storage server.
-- A node has an array of `MAX_FOLDERS` pointers, null where a slot is free; names stand in any
-- order, and a removal leaves a hole.
pub mod Defs
pub mod Slots
pub mod Search
pub mod Delete
pub mod Distinct
pub mod Display
