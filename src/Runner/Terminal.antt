-- ===== src/Runner/Terminal.antt =====
-- The terminal sessions of services/runner/internal/engine/terminal_sessions.go.
pub mod Chunks
pub mod Session
pub mod Manager
mod Examples
