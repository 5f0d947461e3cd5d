-- ===== src/Api/Service/Cleanup.antt =====
-- The methods of practiceService (practice_service.go) that work through cleanup jobs.
use git_gym.Prelude.{
  ℕ, ◌+◌, ◌*◌, not, ◌&&◌, Option, none, some, List, [], ◌∷◌, ◌++◌, ltb, ◌==◌, if◌then◌else◌, length,
}
use git_gym.Prelude.Text.{Text, ℤ, pos, non_positive}
use git_gym.Api.Domain.{
  PracticeSession, WorkspaceCleanupJob, is_ended, is_orphaned, minute,
  practice_session_orphan_cleanup_grace,
}
use git_gym.Api.Errors.{
  Error, ok, err, sentinel, wrapped, joined, is, workspace_not_found,
  workspace_cleanup_job_not_found, workspace_cleanup_job_not_exhausted,
}
use git_gym.Api.Monad.{M, pure, fail, on_outcome, ◌>>=◌, ◌>>◌, require, refuse_if}
use git_gym.Api.Ports.{Store, RunnerClient}
use git_gym.Api.Service.{PracticeService, clock, pending_job}
use git_gym.Api.Store.Jobs.{workspace_cleanup_attempts_exhausted, is_exhausted}

unfoldable pub next_workspace_cleanup_retry_at : ℕ → ℕ → ℕ
next_workspace_cleanup_retry_at now attempt =
    if attempt == 1
    then now + minute
    else (if attempt == 2 then now + 5 * minute else now + 15 * minute)

join_all : Error → List Error → Error
join_all e [] = e
join_all e (f ∷ rest) = joined e (join_all f rest)

-- `errors.Join(runErrs...)`, which is nil where there are none.
unfoldable pub join_errors : {W : Type 0} → List Error → M W (Unit {0})
unfolding join_all
join_errors [] w = ok tt w
join_errors (e ∷ rest) w = err (join_all e rest) w

-- A limit that is not positive is replaced.
abbrev pub limit_or : ℕ → ℤ → ℤ
limit_or default limit = if non_positive limit then pos default else limit

-- When a job that failed is tried again; one whose attempts are used up keeps the time of the run.
unfoldable pub retry_at : ℕ → WorkspaceCleanupJob → ℕ
unfolding workspace_cleanup_attempts_exhausted next_workspace_cleanup_retry_at
retry_at now job =
    if workspace_cleanup_attempts_exhausted job.attempt_count
    then now
    else next_workspace_cleanup_retry_at now job.attempt_count

-- When the job of an ended session without one is due.
unfoldable pub backfill_at : ℕ → PracticeSession → ℕ
backfill_at now session = elim session.ended_at [
  | none ↦ now
  | some at ↦
      if is_orphaned session.status && ltb now (at + practice_session_orphan_cleanup_grace)
      then at + practice_session_orphan_cleanup_grace
      else now
]

module _ {W : Type 0} (store : Store W) where
  -- The job of recoverClaimedWorkspaceCleanupJob; what it returns are errors to report.
  unfoldable pub recover_claimed_workspace_cleanup_job :
      WorkspaceCleanupJob → ℕ → Error → M W (List Error)
  unfolding pending_job
  recover_claimed_workspace_cleanup_job job scheduled_at cause =
      on_outcome
        (store.upsert_workspace_cleanup_job
          (pending_job job.practice_session_id job.workspace_id job.reason scheduled_at))
        (λ e. pure (joined cause (wrapped e) ∷ [])) (λ _. pure (cause ∷ []))

  unfoldable pub mark_workspace_cleanup_job_succeeded : WorkspaceCleanupJob → ℕ → M W (List Error)
  unfolding recover_claimed_workspace_cleanup_job
  mark_workspace_cleanup_job_succeeded job recovery_at =
      on_outcome (store.mark_workspace_cleanup_job_succeeded job.id)
        (λ e. recover_claimed_workspace_cleanup_job job recovery_at (wrapped e)) (λ _. pure [])

  unfoldable pub mark_workspace_cleanup_job_failed :
      WorkspaceCleanupJob → ℕ → Text → M W (List Error)
  unfolding recover_claimed_workspace_cleanup_job
  mark_workspace_cleanup_job_failed job scheduled_at last_err =
      on_outcome (store.mark_workspace_cleanup_job_failed job.id scheduled_at last_err)
        (λ e. recover_claimed_workspace_cleanup_job job scheduled_at (wrapped e)) (λ _. pure [])

  module _ {Conn : Type 0} (s : PracticeService W Conn) (runner : RunnerClient W Conn)
      (now : ℕ) where
    unfoldable pub delete_failed : WorkspaceCleanupJob → Error → M W (List Error)
    unfolding mark_workspace_cleanup_job_succeeded mark_workspace_cleanup_job_failed retry_at
    delete_failed job e =
        if is e workspace_not_found then mark_workspace_cleanup_job_succeeded job now else (do
          marked ← mark_workspace_cleanup_job_failed job (retry_at now job) (s.describe e)
          pure (wrapped e ∷ marked))

    -- One round of the loop of RunWorkspaceCleanupDueJobs, with the errors that it adds.
    unfoldable pub run_job : WorkspaceCleanupJob → M W (List Error)
    unfolding delete_failed
    run_job job =
        on_outcome (runner.delete_workspace job.workspace_id job.reason 0) (delete_failed job)
          (λ _. mark_workspace_cleanup_job_succeeded job now)

    unfoldable pub run_jobs : List WorkspaceCleanupJob → M W (List Error)
    run_jobs [] = pure []
    run_jobs (job ∷ rest) = do errors ← run_job job; later ← run_jobs rest; pure (errors ++ later)

  -- The loop of ReconcileWorkspaceCleanupJobs, with the number of jobs that it has backfilled.
  unfoldable pub backfill_loop : ℕ → ℕ → List PracticeSession → M W ℕ
  unfolding pending_job backfill_at
  backfill_loop now backfilled [] = pure backfilled
  backfill_loop now backfilled (session ∷ rest) =
      if is_ended session.status
      then on_outcome
          (store.upsert_workspace_cleanup_job
            (pending_job session.id session.runner_ref session.status (backfill_at now session)))
          (λ e. fail (wrapped e)) (λ _. backfill_loop now (backfilled + 1) rest)
      else backfill_loop now backfilled rest

pub record ReconciliationSummary : Type 0 where
  pub backfilled_jobs : ℕ
  pub exhausted_failed_jobs : ℕ

module _ {W Conn : Type 0} (s : PracticeService W Conn) where
  unfoldable pub run_with_runner : Store W → Option (RunnerClient W Conn) → ℤ → M W (Unit {0})
  run_with_runner store none limit = pure tt
  run_with_runner store (some runner) limit = do
    now ← clock s
    jobs ←
        on_outcome (store.claim_due_workspace_cleanup_jobs now (limit_or 10 limit))
          (λ e. fail (wrapped e)) pure
    errors ← run_jobs store s runner now jobs
    join_errors errors

  unfoldable pub run_workspace_cleanup_due_jobs : ℤ → M W (Unit {0})
  run_workspace_cleanup_due_jobs limit = elim s.store [
    | none ↦ pure tt
    | some store ↦ run_with_runner store s.runner limit
  ]

  unfoldable pub reconcile_with_store : Store W → ℤ → M W ReconciliationSummary
  reconcile_with_store store limit = do
    now ← clock s
    sessions ←
        on_outcome (store.list_practice_sessions_missing_workspace_cleanup_job (limit_or 10 limit))
          (λ e. fail (wrapped e)) pure
    backfilled ← backfill_loop store now 0 sessions
    exhausted ←
        on_outcome (store.list_exhausted_workspace_cleanup_jobs (limit_or 10 limit))
          (λ e. fail (wrapped e)) pure
    pure (record { backfilled_jobs = backfilled; exhausted_failed_jobs = length exhausted })

  unfoldable pub reconcile_workspace_cleanup_jobs : ℤ → M W ReconciliationSummary
  reconcile_workspace_cleanup_jobs limit = elim s.store [
    | none ↦ pure (record { backfilled_jobs = 0; exhausted_failed_jobs = 0 })
    | some store ↦ reconcile_with_store store limit
  ]

  unfoldable pub list_exhausted_workspace_cleanup_jobs : ℤ → M W (List WorkspaceCleanupJob)
  list_exhausted_workspace_cleanup_jobs limit = elim s.store [
    | none ↦ pure []
    | some store ↦
        on_outcome (store.list_exhausted_workspace_cleanup_jobs (limit_or 20 limit))
          (λ e. fail (wrapped e)) pure
  ]

  unfoldable pub requeue_exhausted_workspace_cleanup_job : ℕ → M W (Unit {0})
  unfolding is_exhausted
  requeue_exhausted_workspace_cleanup_job job_id = do
    store ← require s.store (sentinel workspace_cleanup_job_not_found)
    refuse_if (job_id == 0) (sentinel workspace_cleanup_job_not_found)
    job ← store.workspace_cleanup_job_by_id job_id
    refuse_if (not (is_exhausted job)) (sentinel workspace_cleanup_job_not_exhausted)
    now ← clock s
    store.requeue_workspace_cleanup_job job_id now
