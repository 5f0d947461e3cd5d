-- ===== src/Api/Http.antt =====
-- What services/api/internal/http answers: a handler reads what it needs of its request and ends with a
-- reply. Parsing of requests, writing of JSON and the routes are left to the web framework.
pub mod Reply
pub mod Session
pub mod Operator
pub mod Handlers
pub mod Jobs
pub mod Own
pub mod Gate
pub mod Terminal
pub mod Unset
mod Examples
