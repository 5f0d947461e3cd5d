-- ===== src/Api.antt =====
-- The API service, services/api.
pub mod Domain
pub mod Errors
pub mod Store
pub mod Monad
pub mod Ports
pub mod Catalog
pub mod Service
pub mod Memory
pub mod Mysql
pub mod Http
pub mod Auth
pub mod Migrate
pub mod Config
pub mod RunnerClient
mod Examples
