-- ===== src/Runner/Socket.antt =====
-- The terminal socket of the runner, services/runner/internal/http/handlers/terminal_ws.go, without the
-- socket itself. Its texts are lists of bytes.
pub mod Bytes
pub mod Marker
pub mod Tracker
pub mod Exit
mod Examples
