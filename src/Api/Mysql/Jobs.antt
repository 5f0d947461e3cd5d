-- ===== src/Api/Mysql/Jobs.antt =====
-- The methods of MySQLStore (mysql.go) on workspace_cleanup_jobs.
use git_gym.Prelude.{
  ℕ, ◌+◌, Bool, false, ◌&&◌, ◌||◌, Option, none, some, List, [], ◌∷◌, ◌++◌, map, ltb, leb, ◌==◌,
  if◌then◌else◌, keep, take,
}
use git_gym.Prelude.Sort.{sort}
use git_gym.Prelude.Text.{Text, ℤ, non_positive, pos_part}
use git_gym.Api.Domain.{
  WorkspaceCleanupJob, Status, pending, running, failed, succeeded, is_failed,
  workspace_cleanup_job_max_attempts, workspace_cleanup_job_lease_timeout,
}
use git_gym.Api.Errors.{sentinel, workspace_cleanup_job_not_found}
use git_gym.Api.Monad.{M, pure, fail, ◌>>=◌, ◌>>◌}
use git_gym.Api.Store.Jobs.{is_before}
use git_gym.Api.Mysql.Tables.{Db, statement, transaction, update_where, first_of}

abbrev pub of_session : ℕ → WorkspaceCleanupJob → Bool
of_session session_id r = r.practice_session_id == session_id

abbrev pub any_row : (WorkspaceCleanupJob → Bool) → List WorkspaceCleanupJob → Bool
any_row p [] = false
any_row p (r ∷ rows) = p r || any_row p rows

-- `ON DUPLICATE KEY UPDATE`.
unfoldable pub rewritten : ℕ → WorkspaceCleanupJob → WorkspaceCleanupJob → WorkspaceCleanupJob
rewritten at job r = record r {
  workspace_id = job.workspace_id;
  reason = job.reason;
  scheduled_at = job.scheduled_at;
  status = job.status;
  last_error = [];
  updated_at = at;
}

unfoldable pub inserted : ℕ → ℕ → WorkspaceCleanupJob → WorkspaceCleanupJob
inserted id at job = record job {
  id = id;
  attempt_count = 0;
  last_error = [];
  created_at = at;
  updated_at = at;
}

-- The table behind the INSERT; the key on practice_session_id is unique. The counter of the ids goes
-- on also where the row was there.
unfoldable pub upserted :
    ℕ → ℕ → WorkspaceCleanupJob → List WorkspaceCleanupJob → List WorkspaceCleanupJob
unfolding rewritten inserted
upserted id at job rows =
    if any_row (of_session job.practice_session_id) rows
    then update_where (of_session job.practice_session_id) (rewritten at job) rows
    else rows ++ inserted id at job ∷ []

unfoldable pub upsert_workspace_cleanup_job : WorkspaceCleanupJob → M Db (Unit {0})
unfolding upserted
upsert_workspace_cleanup_job job = statement λ db. (
  tt,
  record db {
    workspace_cleanup_jobs =
        upserted db.next_workspace_cleanup_job db.current_timestamp job db.workspace_cleanup_jobs;
    next_workspace_cleanup_job = db.next_workspace_cleanup_job + 1;
  },
)

-- The WHERE of claimDueWorkspaceCleanupJobsQuery.
due_in : Status → ℕ → WorkspaceCleanupJob → Bool
due_in pending now r =
    leb r.scheduled_at now && ltb r.attempt_count workspace_cleanup_job_max_attempts
due_in failed now r =
    leb r.scheduled_at now && ltb r.attempt_count workspace_cleanup_job_max_attempts
due_in running now r =
    leb (r.updated_at + workspace_cleanup_job_lease_timeout) now
    && ltb r.attempt_count workspace_cleanup_job_max_attempts
due_in _ now r = false

unfoldable pub is_claimable : ℕ → WorkspaceCleanupJob → Bool
unfolding due_in
is_claimable now r = due_in r.status now r

-- `id IN (…)`.
abbrev pub is_among : List WorkspaceCleanupJob → WorkspaceCleanupJob → Bool
is_among [] r = false
is_among (job ∷ jobs) r = job.id == r.id || is_among jobs r

unfoldable pub claimed_row : ℕ → WorkspaceCleanupJob → WorkspaceCleanupJob
claimed_row now r = record r {
  status = running;
  attempt_count = r.attempt_count + 1;
  last_error = [];
  updated_at = now;
}

unfoldable pub claimable_rows : ℕ → ℤ → List WorkspaceCleanupJob → List WorkspaceCleanupJob
unfolding is_claimable is_before
claimable_rows now limit rows =
    take (pos_part limit) (sort is_before (keep (is_claimable now) rows))

-- The UPDATE, which is left out where no row was selected.
mark_running : ℕ → List WorkspaceCleanupJob → M Db (Unit {0})
unfolding claimed_row
mark_running now [] = pure tt
mark_running now (job ∷ jobs) = statement λ db. (
  tt,
  record db {
    workspace_cleanup_jobs =
        update_where (is_among (job ∷ jobs)) (claimed_row now) db.workspace_cleanup_jobs;
  },
)

claim_body : ℕ → ℤ → M Db (List WorkspaceCleanupJob)
unfolding claimable_rows mark_running claimed_row
claim_body now limit = do
  jobs ← statement λ db. (claimable_rows now limit db.workspace_cleanup_jobs, db)
  mark_running now jobs
  pure (map (claimed_row now) jobs)

unfoldable pub claim_due_workspace_cleanup_jobs : ℕ → ℤ → M Db (List WorkspaceCleanupJob)
unfolding claim_body
claim_due_workspace_cleanup_jobs now limit =
    if non_positive limit then pure [] else transaction (claim_body now limit)

abbrev pub has_id : ℕ → WorkspaceCleanupJob → Bool
has_id job_id r = r.id == job_id

unfoldable pub succeeded_row : ℕ → WorkspaceCleanupJob → WorkspaceCleanupJob
succeeded_row at r = record r { status = succeeded; last_error = []; updated_at = at }

unfoldable pub mark_workspace_cleanup_job_succeeded : ℕ → M Db (Unit {0})
unfolding succeeded_row
mark_workspace_cleanup_job_succeeded job_id = statement λ db. (
  tt,
  record db {
    workspace_cleanup_jobs =
        update_where (has_id job_id) (succeeded_row db.current_timestamp) db.workspace_cleanup_jobs;
  },
)

unfoldable pub failed_row : ℕ → ℕ → Text → WorkspaceCleanupJob → WorkspaceCleanupJob
failed_row at scheduled_at last_err r = record r {
  status = failed;
  scheduled_at = scheduled_at;
  last_error = last_err;
  updated_at = at;
}

unfoldable pub mark_workspace_cleanup_job_failed : ℕ → ℕ → Text → M Db (Unit {0})
unfolding failed_row
mark_workspace_cleanup_job_failed job_id scheduled_at last_err = statement λ db. (
  tt,
  record db {
    workspace_cleanup_jobs =
        update_where (has_id job_id) (failed_row db.current_timestamp scheduled_at last_err)
          db.workspace_cleanup_jobs;
  },
)

-- `ORDER BY scheduled_at ASC, id ASC`.
unfoldable pub list_workspace_cleanup_jobs_for_session : ℕ → M Db (List WorkspaceCleanupJob)
unfolding is_before
list_workspace_cleanup_jobs_for_session session_id =
    statement λ db. (sort is_before (keep (of_session session_id) db.workspace_cleanup_jobs), db)

abbrev pub is_exhausted_row : WorkspaceCleanupJob → Bool
is_exhausted_row r = is_failed r.status && leb workspace_cleanup_job_max_attempts r.attempt_count

unfoldable pub list_exhausted_workspace_cleanup_jobs : ℤ → M Db (List WorkspaceCleanupJob)
list_exhausted_workspace_cleanup_jobs limit =
    if non_positive limit
    then pure []
    else (statement
        λ db. (take (pos_part limit) (keep is_exhausted_row db.workspace_cleanup_jobs), db))

found_job : Option WorkspaceCleanupJob → M Db WorkspaceCleanupJob
found_job none = fail (sentinel workspace_cleanup_job_not_found)
found_job (some job) = pure job

unfoldable pub workspace_cleanup_job_by_id : ℕ → M Db WorkspaceCleanupJob
unfolding found_job
workspace_cleanup_job_by_id job_id = do
  row ← statement λ db. (first_of (keep (has_id job_id) db.workspace_cleanup_jobs), db)
  found_job row

unfoldable pub requeued_row : ℕ → ℕ → WorkspaceCleanupJob → WorkspaceCleanupJob
requeued_row at scheduled_at r = record r {
  status = pending;
  attempt_count = 0;
  scheduled_at = scheduled_at;
  last_error = [];
  updated_at = at;
}

-- The row is affected because the clock has gone on since it was last written.
unfoldable pub requeue_workspace_cleanup_job : ℕ → ℕ → M Db (Unit {0})
unfolding requeued_row
requeue_workspace_cleanup_job job_id scheduled_at = do
  affected ← statement λ db. (
    any_row (has_id job_id) db.workspace_cleanup_jobs,
    record db {
      workspace_cleanup_jobs =
          update_where (has_id job_id) (requeued_row db.current_timestamp scheduled_at)
            db.workspace_cleanup_jobs;
    },
  )
  if affected then pure tt else fail (sentinel workspace_cleanup_job_not_found)
