-- ===== src/Lock.antt =====
-- lock.c and lock.h: a lock for readers, writers and deleters on one path.
pub mod Defs
pub mod System
pub mod Invariant
pub mod Safety
