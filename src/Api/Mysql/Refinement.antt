-- ===== src/Api/Mysql/Refinement.antt =====
-- The tables of MySQLStore (mysql.go) and the store in memory: the same job calls on both.
pub mod Rows
pub mod Claims
pub mod Changes
use git_gym.Prelude.{
  ℕ, ◌+◌, ◌≡◌, ◌≢◌, ◌≤◌, refl, sym, ap, ◌∙◌, inl, inr, Bool, true, false, Option, none, some, List,
  [], ◌∷◌, map, arith, ◌==◌, ◌||◌, if◌then◌else◌, Bool-cases, Option-cases, All, In, In-All, keep,
  take,
}
use git_gym.Prelude.Map.{lookup, insert, has, values, UniqueKeys, lookup-insert, values-lookup}
use mathlib.Core.Path.{subst}
use git_gym.Prelude.Sort.{sort}
use git_gym.Prelude.Text.{ℤ, pos, negsuc, non_positive, pos_part}
use git_gym.Api.Domain.{
  WorkspaceCleanupJob, Status, pending, running, failed, workspace_cleanup_job_max_attempts,
  workspace_cleanup_job_lease_timeout,
}
use git_gym.Api.Errors.{Error, Out, ok, err, state}
use git_gym.Api.Store.State.{MemoryStore}
use git_gym.Api.Store.Sessions.{keys}
use git_gym.Api.Store.Jobs.{
  is_due, is_before, due_jobs, claim_loop, claimed_job,
  upsert_workspace_cleanup_job as memory_upsert, claim_due_workspace_cleanup_jobs as memory_claim,
  mark_workspace_cleanup_job_succeeded as memory_succeeded,
  mark_workspace_cleanup_job_failed as memory_failed,
  requeue_workspace_cleanup_job as memory_requeue, change_job,
}
use git_gym.Api.Store.Invariant.{JobsInv}
use git_gym.Api.Store.Claim.{claimed_jobs, claimed_store, claim_loop_at, claim_cases, due_job_filed}
use git_gym.Api.Store.Lifecycle.{
  JobCall, upsert, claim, mark_succeeded, mark_failed, requeue, call_store,
}
use git_gym.Api.Mysql.Tables.{Db, statement, transaction, update_where}
use git_gym.Api.Mysql.Jobs.{
  is_claimable, is_among, claimed_row, claimable_rows, upsert_workspace_cleanup_job,
  claim_due_workspace_cleanup_jobs, mark_workspace_cleanup_job_succeeded,
  mark_workspace_cleanup_job_failed, requeue_workspace_cleanup_job, any_row, of_session, upserted,
  inserted, rewritten, succeeded_row, failed_row, requeued_row,
}
use git_gym.Api.Mysql.Refinement.Claims.{
  claimable_rows-due_jobs, claim_run, claimed_rows-claimed_jobs, claim_rows,
}
use git_gym.Api.Mysql.Refinement.Changes.{change_rows, upsert_rows}
use git_gym.Api.Mysql.Refinement.Rows.{
  keep-ext, keys-insert, keys-claim_loop, values-update_where, any_row-true, any_row-false,
  values-insert_new,
}

-- The table holds the jobs of the map in the same order, and the database answers.
abbrev pub SameJobs : MemoryStore → Db → Type 0
SameJobs s db = (db.workspace_cleanup_jobs ≡ values s.cleanup_jobs) × (db.faults ≡ [])

-- The same call on the tables, whose clock shows the time that the call on the map reads.
unfoldable pub call_tables : JobCall → Db → Db
call_tables (upsert wall job) db =
    state (upsert_workspace_cleanup_job job (record db { current_timestamp = wall }))
call_tables (claim now limit) db = state (claim_due_workspace_cleanup_jobs now limit db)
call_tables (mark_succeeded wall id) db =
    state (mark_workspace_cleanup_job_succeeded id (record db { current_timestamp = wall }))
call_tables (mark_failed wall id at message) db =
    state (mark_workspace_cleanup_job_failed id at message (record db { current_timestamp = wall }))
call_tables (requeue wall id at) db =
    state (requeue_workspace_cleanup_job id at (record db { current_timestamp = wall }))

-- A job that is new to both gets the same number in both, and comes without attempts and errors, as
-- the service makes it.
abbrev pub IsInStep : JobCall → MemoryStore → Db → Type 0
IsInStep (upsert wall job) s db =
    (db.next_workspace_cleanup_job ≡ s.next_cleanup_job_id)
    × (job.attempt_count ≡ 0)
    × (job.last_error ≡ [])
IsInStep _ s db = Unit

-- Let the job maps of the store in memory agree (JobsInv), let the table have the values of the job
-- map as its rows, in the same order, and let no statement fail. Then a claim on the tables succeeds
-- with the jobs that the claim on the map returns, and the rows become the values of the map behind
-- that claim.
pub claim_refines :
    (now : ℕ) (limit : ℤ) (s : MemoryStore) (db : Db)
    → JobsInv s
    → SameJobs s db
    → claim_due_workspace_cleanup_jobs now limit db
      ≡ ok
          (claimed_jobs now limit s)
          (record db { workspace_cleanup_jobs = values (claimed_store now limit s).cleanup_jobs })
unfolding memory_claim
claim_refines now limit s db v (same, answers) =
    let run = claim_run now limit db answers in
    let selected : claimable_rows now limit db.workspace_cleanup_jobs ≡ due_jobs now limit s =
      ap (claimable_rows now limit) same ∙ claimable_rows-due_jobs now limit s in
    ground (
      arith,
      run,
      selected,
      same,
      claimed_rows-claimed_jobs now limit s v (due_jobs now limit s) (λ j h. h),
      claim_rows now limit s v,
    )

-- Let the job maps of the store in memory agree (JobsInv), let the table have the values of the job
-- map as its rows, in the same order, and let no statement fail. Then, behind the same job call at
-- the same time on both, the table again has the values of the job map as its rows, in the same
-- order; of an upsert this asks that the next numbers are the same and that the job comes without
-- attempts and without an error.
pub job_call_refines :
    (c : JobCall) (s : MemoryStore) (db : Db)
    → JobsInv s
    → SameJobs s db
    → IsInStep c s db
    → SameJobs (call_store c s) (call_tables c db)
unfolding call_store call_tables succeeded_row failed_row requeued_row
job_call_refines (upsert wall job) s db v (same, answers) (ids, no_attempts, no_error) =
    unfold upsert_workspace_cleanup_job in
    ground (arith, upsert_rows wall job s v no_attempts no_error)
job_call_refines (claim now limit) s db v r step =
    let same = claim_refines now limit s db v r in
    (
      ap (λ (d : Db). d.workspace_cleanup_jobs) (ap state same),
      ap (λ (d : Db). d.faults) (ap state same) ∙ r.1,
    )
job_call_refines (mark_succeeded wall id) s db v (same, answers) step =
    unfold memory_succeeded in
    unfold mark_workspace_cleanup_job_succeeded in
    let rows : (call_tables (mark_succeeded wall id) db).workspace_cleanup_jobs
        ≡ update_where (λ r. r.id == id) (succeeded_row wall) (values s.cleanup_jobs) =
      ground arith in
    (rows ∙ sym (change_rows id (succeeded_row wall) tt _ s v), ground arith)
job_call_refines (mark_failed wall id at message) s db v (same, answers) step =
    unfold memory_failed in
    unfold mark_workspace_cleanup_job_failed in
    let rows : (call_tables (mark_failed wall id at message) db).workspace_cleanup_jobs
        ≡ update_where (λ r. r.id == id) (failed_row wall at message) (values s.cleanup_jobs) =
      ground arith in
    (rows ∙ sym (change_rows id (failed_row wall at message) tt _ s v), ground arith)
job_call_refines (requeue wall id at) s db v (same, answers) step =
    unfold memory_requeue in
    unfold requeue_workspace_cleanup_job in
    let rows : (call_tables (requeue wall id at) db).workspace_cleanup_jobs
        ≡ update_where (λ r. r.id == id) (requeued_row wall at) (values s.cleanup_jobs) =
      ground arith in
    (rows ∙ sym (change_rows id (requeued_row wall at) tt _ s v), ground arith)
