-- ===== src/Api/Store/State.antt =====
-- The fields of InMemoryPracticeSessionStore and NewInMemoryPracticeSessionStore.
use git_gym.Prelude.{ℕ, List, []}
use git_gym.Api.Domain.{PracticeSession, WorkspaceCleanupJob}

pub record MemoryStore : Type 0 where
  pub next_id : ℕ
  pub next_cleanup_job_id : ℕ
  pub sessions : List (ℕ × PracticeSession)
  pub current_by_user : List (ℕ × ℕ)
  pub cleanup_jobs : List (ℕ × WorkspaceCleanupJob)
  pub cleanup_job_by_session : List (ℕ × ℕ)

unfoldable pub new_memory_store : MemoryStore
new_memory_store = record {
  next_id = 1;
  next_cleanup_job_id = 1;
  sessions = [];
  current_by_user = [];
  cleanup_jobs = [];
  cleanup_job_by_session = [];
}
