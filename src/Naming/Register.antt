-- ===== src/Naming/Register.antt =====
-- `register_storage_server` and `create_backup_helper`.
pub mod Defs
pub mod Added
