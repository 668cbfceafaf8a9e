-- ===== src/Naming/Index.antt =====
-- `indexHelper`: the paths that a storage server sends, put into its tree.
pub mod Defs
pub mod Chunks
pub mod Lines
