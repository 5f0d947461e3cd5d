-- ===== src/Api/Store.antt =====
-- InMemoryPracticeSessionStore of services/api/internal/service/practice_service.go. Each method
-- runs under one mutex, so it is one function on the store's fields. A `range` over a map meets its
-- entries in the order of the list; `wall` is what `time.Now()` returns.
pub mod State
pub mod Sessions
pub mod Jobs
pub mod Invariant
pub mod Claim
pub mod Lifecycle
pub mod Expire
