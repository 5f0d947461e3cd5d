-- ===== src/Api/Auth.antt =====
-- Sign-in over GitHub: http/handlers/auth.go, oauth/github.go and service/session_cookie.go of
-- services/api/internal.
pub mod Ports
pub mod Github
pub mod Request
pub mod Reply
pub mod Site
pub mod Handlers
mod Examples
