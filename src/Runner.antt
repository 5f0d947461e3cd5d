-- ===== src/Runner.antt =====
-- The runner service, services/runner.
pub mod Command
pub mod Terminal
pub mod Cleanup
pub mod Socket
pub mod Workspace
pub mod Disk
mod Examples
