-- ===== src/Api/Mysql/Refinement/Claims.antt =====
-- A claim on the rows (mysql.go) and on the map of the store in memory.
use git_gym.Prelude.{
  ℕ, ◌≡◌, ◌≢◌, ◌≤◌, refl, sym, ap, ◌∙◌, inl, inr, true, false, some, List, [], ◌∷◌, map, arith,
  if◌then◌else◌, All, In, take,
}
use git_gym.Prelude.Map.{lookup, has, values}
use mathlib.Core.Path.{subst}
use git_gym.Prelude.Sort.{sort}
use git_gym.Prelude.Text.{ℤ, non_positive, pos_part}
use git_gym.Api.Domain.{
  WorkspaceCleanupJob, Status, pending, running, failed, workspace_cleanup_job_max_attempts,
}
use git_gym.Api.Errors.{ok}
use git_gym.Api.Store.State.{MemoryStore}
use git_gym.Api.Store.Jobs.{is_due, is_before, due_jobs, claim_loop, claimed_job}
use git_gym.Api.Store.Invariant.{JobsInv}
use git_gym.Api.Store.Claim.{claim_loop_at, due_job_filed}
use git_gym.Api.Store.Lifecycle.{}
use git_gym.Api.Mysql.Tables.{Db, update_where}
use git_gym.Api.Mysql.Jobs.{
  is_claimable, is_among, claimed_row, claimable_rows, claim_due_workspace_cleanup_jobs,
}
use git_gym.Api.Mysql.Refinement.Rows.{keep-ext, keys-claim_loop, values-update_where}

claimable_in :
    (st : Status) (now : ℕ) (r : WorkspaceCleanupJob)
    → r.status ≡ st
    → is_claimable now r ≡ is_due now r
unfolding is_claimable is_due
claimable_in pending now r e = ground arith
claimable_in running now r e = ground arith
claimable_in failed now r e = ground arith
claimable_in _ now r e = ground arith

-- The SELECT finds the jobs that the loop over the map finds.
pub claimable_rows-due_jobs :
    (now : ℕ) (limit : ℤ) (s : MemoryStore)
    → claimable_rows now limit (values s.cleanup_jobs) ≡ due_jobs now limit s
unfolding claimable_rows due_jobs
claimable_rows-due_jobs now limit s =
    ap (λ rows. take (pos_part limit) (sort is_before rows))
      (keep-ext (is_claimable now) (is_due now) (λ r. claimable_in r.status now r refl)
        (values s.cleanup_jobs))

is_among-true :
    (r : WorkspaceCleanupJob) (jobs : List WorkspaceCleanupJob) → In r jobs → is_among jobs r ≡ true
is_among-true r [] h = absurd h
is_among-true r (j ∷ jobs) (inl q) = ground arith
is_among-true r (j ∷ jobs) (inr q) = ground (arith, is_among-true r jobs q)

is_among-false :
    (r : WorkspaceCleanupJob) (jobs : List WorkspaceCleanupJob)
    → All (λ job. job.id ≢ r.id) jobs
    → is_among jobs r ≡ false
is_among-false r [] all = refl
is_among-false r (j ∷ jobs) all = ground (arith, is_among-false r jobs all.1)

claimed_row-claimed_job :
    (now : ℕ) (r : WorkspaceCleanupJob)
    → r.attempt_count ≤ workspace_cleanup_job_max_attempts
    → claimed_row now r ≡ claimed_job now r
unfolding claimed_row claimed_job
claimed_row-claimed_job now r h = ground arith

module _ (now : ℕ) (limit : ℤ) (s : MemoryStore) (v : JobsInv s) where
  claim_at :
      (k : ℕ) (r : WorkspaceCleanupJob)
      → lookup k s.cleanup_jobs ≡ some r
      → lookup k (claim_loop now (due_jobs now limit s) s.cleanup_jobs)
        ≡ some (if is_among (due_jobs now limit s) r then claimed_row now r else r)
  claim_at k r e =
      let due = due_jobs now limit s in
      let (at_r, most, _, _) = v.filed k r e in
      elim (claim_loop_at now due s.cleanup_jobs k) [
        | inl (same, others) ↦
            let here = subst (λ i. All (λ job. job.id ≢ i) due) (sym at_r) others in
            same ∙ e ∙ ap some (rw (is_among-false r due here))
        | inr (job, there, at, after) ↦
            let filed = (due_job_filed now limit s v job there).0 in
            let same : job ≡ r = ground (arith, filed, e, at) in
            after
            ∙ ap (λ j. some (claimed_job now j)) same
            ∙ ap some (
                rw (is_among-true r due (subst (λ j. In j due) same there))
                  (sym (claimed_row-claimed_job now r most)))
      ]

  due_here :
      (jobs : List WorkspaceCleanupJob)
      → ((job : WorkspaceCleanupJob) → In job jobs → In job (due_jobs now limit s))
      → All (λ job. has job.id s.cleanup_jobs ≡ true) jobs
  due_here [] sub = tt
  due_here (job ∷ jobs) sub =
      let filed = (due_job_filed now limit s v job (sub job (inl refl))).0 in
      (ground arith, due_here jobs (λ j h. sub j (inr h)))

  -- What the write-back makes of the map is what the UPDATE makes of the rows.
  pub claim_rows :
      values (claim_loop now (due_jobs now limit s) s.cleanup_jobs)
      ≡ update_where (is_among (due_jobs now limit s)) (claimed_row now) (values s.cleanup_jobs)
  claim_rows =
      values-update_where (is_among (due_jobs now limit s)) (claimed_row now) s.cleanup_jobs _
        (keys-claim_loop now (due_jobs now limit s) s.cleanup_jobs
          (due_here (due_jobs now limit s) (λ j h. h)))
        v.unique claim_at

update_where-none :
    (f : WorkspaceCleanupJob → WorkspaceCleanupJob) (rows : List WorkspaceCleanupJob)
    → update_where (is_among []) f rows ≡ rows
update_where-none f [] = refl
update_where-none f (r ∷ rows) = ap (λ rest. r ∷ rest) (update_where-none f rows)

-- The transaction, where no statement fails.
pub claim_run :
    (now : ℕ) (limit : ℤ) (db : Db)
    → db.faults ≡ []
    → claim_due_workspace_cleanup_jobs now limit db ≡ (
        let rows = claimable_rows now limit db.workspace_cleanup_jobs in
        if non_positive limit
        then ok [] db
        else ok (map (claimed_row now) rows) (record db {
          workspace_cleanup_jobs =
              update_where (is_among rows) (claimed_row now) db.workspace_cleanup_jobs;
        }))
unfolding claim_due_workspace_cleanup_jobs
claim_run now limit db e =
    ground (arith, update_where-none (claimed_row now) db.workspace_cleanup_jobs)

pub claimed_rows-claimed_jobs :
    (now : ℕ) (limit : ℤ) (s : MemoryStore)
    → JobsInv s
    → (jobs : List WorkspaceCleanupJob)
    → ((job : WorkspaceCleanupJob) → In job jobs → In job (due_jobs now limit s))
    → map (claimed_row now) jobs ≡ map (claimed_job now) jobs
claimed_rows-claimed_jobs now limit s v [] sub = refl
claimed_rows-claimed_jobs now limit s v (job ∷ jobs) sub =
    let filed = (due_job_filed now limit s v job (sub job (inl refl))).0 in
    let most = (v.filed job.id job filed).1 in
    let rest = claimed_rows-claimed_jobs now limit s v jobs (λ j h. sub j (inr h)) in
    let here = claimed_row-claimed_job now job most in rw (here, rest) refl
