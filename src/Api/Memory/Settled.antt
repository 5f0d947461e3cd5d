-- ===== src/Api/Memory/Settled.antt =====
-- What RunWorkspaceCleanupDueJobs of practice_service.go makes of one job, by the answer of the runner.
use git_gym.Prelude.{ℕ, ◌+◌, ◌<◌, ◌≤◌, ◌≡◌, ◌≢◌, ◌⊎◌, inl, inr, true, false, arith}
use git_gym.Api.Domain.{WorkspaceCleanupJob, succeeded, failed}
use git_gym.Api.Errors.{Out, ok, err, is, workspace_not_found}
use git_gym.Api.Service.Cleanup.{retry_at, next_workspace_cleanup_retry_at}
use git_gym.Api.Store.Jobs.{workspace_cleanup_attempts_exhausted}

-- The next try comes after 1, 5 or 15 minutes, in nanoseconds; there is none after the fifth.
abbrev pub IsRetryTime : ℕ → ℕ → ℕ → Type 0
IsRetryTime now attempts at =
    ((5 ≤ attempts) × (at ≡ now))
    ⊎ (((attempts ≡ 1) × (at ≡ now + 60_000_000_000))
        ⊎ (((attempts ≡ 2) × (at ≡ now + 300_000_000_000))
            ⊎ ((attempts ≢ 1) × (attempts ≢ 2) × (attempts < 5) × (at ≡ now + 900_000_000_000))))

-- A run leaves the job done with, or failed and due again at its next try.
abbrev pub IsSettled : ℕ → WorkspaceCleanupJob → Type 0
IsSettled now job =
    (job.status ≡ succeeded)
    ⊎ ((job.status ≡ failed) × IsRetryTime now job.attempt_count job.scheduled_at)

-- The same row but for its status, schedule, error and time of change.
abbrev pub Rewrites : WorkspaceCleanupJob → WorkspaceCleanupJob → Type 0
Rewrites stored job = job ≡ record stored {
  status = job.status;
  scheduled_at = job.scheduled_at;
  last_error = job.last_error;
  updated_at = job.updated_at;
}

-- The workspace is gone: the runner deleted it, or said that there is none.
abbrev pub IsGone : {W : Type 0} → Out W (Unit {0}) → Type 0
IsGone (ok u w) = Unit
IsGone (err e w) = is e workspace_not_found ≡ true

abbrev pub IsKept : {W : Type 0} → Out W (Unit {0}) → Type 0
IsKept (ok u w) = ⊥
IsKept (err e w) = is e workspace_not_found ≡ false

-- What is written for the answer of the runner.
abbrev pub Fits : {W : Type 0} → ℕ → Out W (Unit {0}) → WorkspaceCleanupJob → Type 0
Fits now o job =
    (IsGone o × (job.status ≡ succeeded))
    ⊎ (IsKept o × (job.status ≡ failed) × IsRetryTime now job.attempt_count job.scheduled_at)

pub Fits-IsSettled :
    {W : Type 0} (now : ℕ) (o : Out W (Unit {0})) (job : WorkspaceCleanupJob)
    → Fits now o job
    → IsSettled now job
Fits-IsSettled now o job (inl (gone, done)) = inl done
Fits-IsSettled now o job (inr (kept, waits, at)) = inr (waits, at)

pub retry_at-IsRetryTime :
    (now attempts : ℕ) (job : WorkspaceCleanupJob)
    → attempts ≡ job.attempt_count
    → IsRetryTime now attempts (retry_at now job)
unfolding retry_at workspace_cleanup_attempts_exhausted next_workspace_cleanup_retry_at
retry_at-IsRetryTime now attempts job e = ground (arith, e)
