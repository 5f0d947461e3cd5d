-- ===== src/Api/Store/Jobs.antt =====
-- The cleanup-job methods of InMemoryPracticeSessionStore (practice_service.go).
use git_gym.Prelude.{
  ℕ, ◌+◌, ◌%◌, Bool, false, not, ◌&&◌, Option, none, some, List, [], ◌∷◌, map, ltb, leb, ◌==◌,
  if◌then◌else◌, take, keep,
}
use git_gym.Prelude.Map.{lookup, insert, values}
use git_gym.Prelude.Sort.{sort}
use git_gym.Prelude.Text.{Text, codes, ℤ, non_positive, pos_part}
use git_gym.Api.Domain.{
  Status, pending, running, failed, succeeded, is_failed, WorkspaceCleanupJob, u32_mod, u64_mod,
  workspace_cleanup_job_max_attempts, workspace_cleanup_job_lease_timeout,
}
use git_gym.Api.Errors.{Out, ok, err, sentinel, foreign, workspace_cleanup_job_not_found}
use git_gym.Api.Store.State.{MemoryStore}
use git_gym.Api.Store.Sessions.{in_key_order}

unfoldable pub workspace_cleanup_attempts_exhausted : ℕ → Bool
workspace_cleanup_attempts_exhausted attempt = leb workspace_cleanup_job_max_attempts attempt

-- The job of the session, updated: its id, creation time and attempt count stay.
rescheduled : ℕ → WorkspaceCleanupJob → WorkspaceCleanupJob → WorkspaceCleanupJob
rescheduled wall job existing = record existing {
  workspace_id = job.workspace_id;
  reason = job.reason;
  scheduled_at = job.scheduled_at;
  status = job.status;
  last_error = [];
  updated_at = wall;
}

-- `s.cleanupJobs[existingID]`, which Go reads as the zero value where it is missing.
job_or_zero : Option WorkspaceCleanupJob → WorkspaceCleanupJob
job_or_zero (some job) = job
job_or_zero none = record {
  id = 0;
  practice_session_id = 0;
  workspace_id = [];
  reason = Status.other [];
  scheduled_at = 0;
  status = Status.other [];
  attempt_count = 0;
  last_error = [];
  created_at = 0;
  updated_at = 0;
}

upsert_at : Option ℕ → ℕ → WorkspaceCleanupJob → MemoryStore → Out MemoryStore (Unit {0})
unfolding rescheduled job_or_zero
upsert_at (some existing_id) wall job s =
    let existing = job_or_zero (lookup existing_id s.cleanup_jobs) in
    ok tt (record s {
      cleanup_jobs = insert existing_id (rescheduled wall job existing) s.cleanup_jobs;
    })
upsert_at none wall job s =
    let added = record job { id = s.next_cleanup_job_id; created_at = wall; updated_at = wall } in
    ok tt (record s {
      next_cleanup_job_id = (s.next_cleanup_job_id + 1) % u64_mod;
      cleanup_jobs = insert added.id added s.cleanup_jobs;
      cleanup_job_by_session = insert job.practice_session_id added.id s.cleanup_job_by_session;
    })

unfoldable pub upsert_workspace_cleanup_job :
    ℕ → WorkspaceCleanupJob → MemoryStore → Out MemoryStore (Unit {0})
unfolding upsert_at
upsert_workspace_cleanup_job wall job s =
    upsert_at (lookup job.practice_session_id s.cleanup_job_by_session) wall job s

-- The switch of ClaimDueWorkspaceCleanupJobs. `job.UpdatedAt.After(now - timeout)` is written with
-- the timeout on the other side, since numbers of nanoseconds stop at 0.
is_due_in : Status → ℕ → WorkspaceCleanupJob → Bool
unfolding workspace_cleanup_attempts_exhausted
is_due_in pending now job =
    not (workspace_cleanup_attempts_exhausted job.attempt_count) && not (ltb now job.scheduled_at)
is_due_in failed now job =
    not (workspace_cleanup_attempts_exhausted job.attempt_count) && not (ltb now job.scheduled_at)
is_due_in running now job =
    not (workspace_cleanup_attempts_exhausted job.attempt_count)
    && not (ltb now (job.updated_at + workspace_cleanup_job_lease_timeout))
is_due_in _ now job = false

unfoldable pub is_due : ℕ → WorkspaceCleanupJob → Bool
unfolding is_due_in
is_due now job = is_due_in job.status now job

-- The order of the claim: by schedule, then by id.
unfoldable pub is_before : WorkspaceCleanupJob → WorkspaceCleanupJob → Bool
is_before a b =
    if a.scheduled_at == b.scheduled_at then ltb a.id b.id else ltb a.scheduled_at b.scheduled_at

unfoldable pub claimed_job : ℕ → WorkspaceCleanupJob → WorkspaceCleanupJob
claimed_job now job = record job {
  status = running;
  attempt_count = (job.attempt_count + 1) % u32_mod;
  last_error = [];
  updated_at = now;
}

unfoldable pub claim_loop :
    ℕ → List WorkspaceCleanupJob → List (ℕ × WorkspaceCleanupJob) → List (ℕ × WorkspaceCleanupJob)
unfolding claimed_job
claim_loop now [] jobs = jobs
claim_loop now (job ∷ due) jobs = claim_loop now due (insert job.id (claimed_job now job) jobs)

unfoldable pub due_jobs : ℕ → ℤ → MemoryStore → List WorkspaceCleanupJob
unfolding is_due is_before
due_jobs now limit s =
    take (pos_part limit) (sort is_before (keep (is_due now) (values s.cleanup_jobs)))

unfoldable pub claim_due_workspace_cleanup_jobs :
    ℕ → ℤ → MemoryStore → Out MemoryStore (List WorkspaceCleanupJob)
unfolding due_jobs claim_loop
claim_due_workspace_cleanup_jobs now limit s =
    if non_positive limit
    then ok [] s
    else let due = due_jobs now limit s in
      ok (map (claimed_job now) due) (record s { cleanup_jobs = claim_loop now due s.cleanup_jobs })

-- What the methods that look a job up by its id do with it: the error that they report, or the
-- changed job.
abbrev pub change_job :
    {A : Type 0}
    → Out MemoryStore A
    → ℕ
    → Option WorkspaceCleanupJob
    → (WorkspaceCleanupJob → WorkspaceCleanupJob)
    → A
    → MemoryStore
    → Out MemoryStore A
change_job missing job_id none change a s = missing
change_job missing job_id (some job) change a s =
    ok a (record s { cleanup_jobs = insert job_id (change job) s.cleanup_jobs })

unfoldable pub mark_workspace_cleanup_job_succeeded :
    ℕ → ℕ → MemoryStore → Out MemoryStore (Unit {0})
mark_workspace_cleanup_job_succeeded wall job_id s =
    change_job (err (foreign (codes "workspace cleanup job not found")) s) job_id
      (lookup job_id s.cleanup_jobs)
      (λ job. record job { status = succeeded; last_error = []; updated_at = wall }) tt s

unfoldable pub mark_workspace_cleanup_job_failed :
    ℕ → ℕ → ℕ → Text → MemoryStore → Out MemoryStore (Unit {0})
mark_workspace_cleanup_job_failed wall job_id scheduled_at last_err s =
    change_job (err (foreign (codes "workspace cleanup job not found")) s) job_id
      (lookup job_id s.cleanup_jobs)
      (λ job. record job {
        status = failed;
        scheduled_at = scheduled_at;
        last_error = last_err;
        updated_at = wall;
      })
      tt s

found_job : Option WorkspaceCleanupJob → MemoryStore → Out MemoryStore WorkspaceCleanupJob
found_job none s = err (sentinel workspace_cleanup_job_not_found) s
found_job (some job) s = ok job s

unfoldable pub workspace_cleanup_job_by_id : ℕ → MemoryStore → Out MemoryStore WorkspaceCleanupJob
unfolding found_job
workspace_cleanup_job_by_id job_id s = found_job (lookup job_id s.cleanup_jobs) s

unfoldable pub requeue_workspace_cleanup_job : ℕ → ℕ → ℕ → MemoryStore → Out MemoryStore (Unit {0})
requeue_workspace_cleanup_job wall job_id scheduled_at s =
    change_job (err (sentinel workspace_cleanup_job_not_found) s) job_id
      (lookup job_id s.cleanup_jobs)
      (λ job. record job {
        status = pending;
        attempt_count = 0;
        last_error = [];
        scheduled_at = scheduled_at;
        updated_at = wall;
      })
      tt s

unfoldable pub is_exhausted : WorkspaceCleanupJob → Bool
unfolding workspace_cleanup_attempts_exhausted
is_exhausted job = is_failed job.status && workspace_cleanup_attempts_exhausted job.attempt_count

unfoldable pub list_exhausted_workspace_cleanup_jobs :
    ℤ → MemoryStore → Out MemoryStore (List WorkspaceCleanupJob)
unfolding is_exhausted
list_exhausted_workspace_cleanup_jobs limit s =
    if non_positive limit
    then ok [] s
    else ok (take (pos_part limit) (keep is_exhausted (in_key_order s.cleanup_jobs))) s
