-- ===== src/Naming/System.antt =====
-- The invariant of the naming server over its commands, acknowledgements and registrations.
pub mod Keeps
pub mod Valid
pub mod Commands
pub mod Handlers
pub mod Copies
pub mod Process
pub mod Session
pub mod Acknowledge
pub mod Registration
pub mod Reach
