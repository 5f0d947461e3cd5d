-- ===== src/Api/Store/Lifecycle/Requeue.antt =====
-- RequeueWorkspaceCleanupJob of InMemoryPracticeSessionStore (practice_service.go) and the claims.
use git_gym.Prelude.{ℕ, ◌≤◌, ◌≡◌, refl, true, false, some, [], arith}
use git_gym.Prelude.Map.{lookup, lookup-insert}
use git_gym.Api.Domain.{WorkspaceCleanupJob, pending, Status, failed}
use git_gym.Api.Errors.{state}
use git_gym.Api.Store.State.{MemoryStore}
use git_gym.Api.Store.Jobs.{
  is_due, is_exhausted, requeue_workspace_cleanup_job, workspace_cleanup_attempts_exhausted,
}

exhausted_in :
    (st : Status) (now : ℕ) (job : WorkspaceCleanupJob)
    → job.status ≡ st
    → is_exhausted job ≡ true
    → is_due now job ≡ false
unfolding is_exhausted is_due
exhausted_in failed now job e h = ground arith
exhausted_in _ now job e h = ground arith

requeued : ℕ → ℕ → WorkspaceCleanupJob → WorkspaceCleanupJob
requeued wall at job = record job {
  status = pending;
  attempt_count = 0;
  last_error = [];
  scheduled_at = at;
  updated_at = wall;
}

requeued_at :
    (wall at k : ℕ) (s : MemoryStore) (job : WorkspaceCleanupJob)
    → lookup k s.cleanup_jobs ≡ some job
    → lookup k (state (requeue_workspace_cleanup_job wall k at s)).cleanup_jobs
      ≡ some (requeued wall at job)
unfolding requeue_workspace_cleanup_job requeued
requeued_at wall at k s job there =
    ground (arith, there, lookup-insert k k (requeued wall at job) s.cleanup_jobs)

-- A failed job whose attempts are used up is due at no time; once it is requeued for a time, it is
-- due from that time on, under the same id and with no attempt counted.
pub requeue_revives :
    (wall at k : ℕ) (s : MemoryStore) (job : WorkspaceCleanupJob)
    → lookup k s.cleanup_jobs ≡ some job
    → is_exhausted job ≡ true
    → ((now : ℕ) → is_due now job ≡ false)
      × ((fresh : WorkspaceCleanupJob) × (lookup k
              (state (requeue_workspace_cleanup_job wall k at s)).cleanup_jobs
            ≡ some fresh)
          × (fresh.id ≡ job.id)
          × (fresh.attempt_count ≡ 0)
          × ((now : ℕ) → at ≤ now → is_due now fresh ≡ true))
unfolding requeued is_due workspace_cleanup_attempts_exhausted
requeue_revives wall at k s job there exhausted = (
  (λ now. exhausted_in job.status now job refl exhausted),
  (
    requeued wall at job,
    requeued_at wall at k s job there,
    refl,
    refl,
    (λ now later. ground arith),
  ),
)
