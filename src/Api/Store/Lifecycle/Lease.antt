-- ===== src/Api/Store/Lifecycle/Lease.antt =====
-- The lease that a claim of InMemoryPracticeSessionStore (practice_service.go) gives on its jobs.
use git_gym.Prelude.{
  ℕ, ◌+◌, ◌≤◌, ◌<◌, ◌≡◌, ◌≢◌, refl, suc, ap, ◌∙◌, inl, inr, Option, none, some, List, [], ◌∷◌,
  arith, length, All, In, Option-cases,
}
use git_gym.Prelude.Map.{lookup, insert, lookup-insert}
use git_gym.Prelude.Text.{ℤ}
use git_gym.Api.Domain.{WorkspaceCleanupJob, running, workspace_cleanup_job_lease_timeout, u64_mod}
use git_gym.Api.Errors.{Error, err, state}
use git_gym.Api.Store.State.{MemoryStore}
use git_gym.Api.Store.Jobs.{
  upsert_workspace_cleanup_job, mark_workspace_cleanup_job_succeeded,
  mark_workspace_cleanup_job_failed, requeue_workspace_cleanup_job, due_jobs, change_job,
}
use git_gym.Api.Store.Invariant.{JobsInv}
use git_gym.Api.Store.Claim.{
  claim_cases, claimed_jobs, claim_hands_out_due_jobs, due_job_filed, claim_loop_at,
}
use git_gym.Api.Store.Lifecycle.{
  JobCall, upsert, claim, mark_succeeded, mark_failed, requeue, call_store, call_all, IsFresh,
  call_store-JobsInv,
}
use git_gym.Api.Store.Lifecycle.History.{next_id_step}

-- The job of the session runs, and was last written at the time or later.
abbrev IsLeased : ℕ → ℕ → ℕ → MemoryStore → Type 0
IsLeased k session at s =
    (job : WorkspaceCleanupJob) × (lookup k s.cleanup_jobs ≡ some job)
    × (job.status ≡ running)
    × (at ≤ job.updated_at)
    × (job.practice_session_id ≡ session)

-- The call leaves the job alone: it is a claim before the lease is over, an upsert for another
-- session, or a mark or a requeue of another job.
abbrev pub LeavesLease : ℕ → ℕ → ℕ → JobCall → Type 0
LeavesLease k session over (upsert wall job) = job.practice_session_id ≢ session
LeavesLease k session over (claim now limit) = now < over
LeavesLease k session over (mark_succeeded wall id) = id ≢ k
LeavesLease k session over (mark_failed wall id at message) = id ≢ k
LeavesLease k session over (requeue wall id at) = id ≢ k

insert-IsLeased :
    (k session at j : ℕ) (new : WorkspaceCleanupJob) (s : MemoryStore)
    → j ≢ k
    → IsLeased k session at s
    → IsLeased k session at (record s { cleanup_jobs = insert j new s.cleanup_jobs })
insert-IsLeased k session at j new s others (job, filed, runs, fresh, mine) =
    (job, ground (arith, lookup-insert j k new s.cleanup_jobs, filed), runs, fresh, mine)

change_job-IsLeased :
    (k session at id : ℕ) (s : MemoryStore) (o : Option WorkspaceCleanupJob) (e : Error)
    (change : WorkspaceCleanupJob → WorkspaceCleanupJob)
    → id ≢ k
    → IsLeased k session at s
    → IsLeased k session at (state (change_job (err e s) id o change tt s))
change_job-IsLeased k session at id s none e change others h = h
change_job-IsLeased k session at id s (some job) e change others h =
    insert-IsLeased k session at id (change job) s others h

claim-IsLeased :
    (now : ℕ) (limit : ℤ) (s : MemoryStore) (k session at : ℕ)
    → JobsInv s
    → now < at + workspace_cleanup_job_lease_timeout
    → IsLeased k session at s
    → IsLeased k session at (call_store (claim now limit) s)
unfolding call_store
claim-IsLeased now limit s k session at v within (job, filed, runs, fresh, mine) =
    elim (claim_cases now limit s) [
      | inl (_, same) ↦ rw same (job, filed, runs, fresh, mine)
      | inr (_, after) ↦
          rw after (elim (claim_loop_at now (due_jobs now limit s) s.cleanup_jobs k) [
            | inl (kept, _) ↦ (job, kept ∙ filed, runs, fresh, mine)
            | inr (taken, there, id, _) ↦
                let (stands, due) = due_job_filed now limit s v taken there in
                let e : lookup taken.id s.cleanup_jobs ≡ some job =
                  ap (λ i. lookup i s.cleanup_jobs) id ∙ filed in
                absurd (ground arith)
          ])
    ]

upsert-IsLeased :
    (wall : ℕ) (job : WorkspaceCleanupJob) (s : MemoryStore) (k session at : ℕ)
    → JobsInv s
    → job.practice_session_id ≢ session
    → IsLeased k session at s
    → IsLeased k session at (call_store (upsert wall job) s)
unfolding call_store upsert_workspace_cleanup_job
upsert-IsLeased wall job s k session at v other (old, filed, runs, fresh, mine) =
    elim (Option-cases (lookup job.practice_session_id s.cleanup_job_by_session)) [
      | inl e ↦
          rw (e, upsert_workspace_cleanup_job)
            (
              old,
              ground (
                arith,
                lookup-insert s.next_cleanup_job_id k
                    (record job {
                      id = s.next_cleanup_job_id;
                      created_at = wall;
                      updated_at = wall;
                    })
                    s.cleanup_jobs,
                v.filed k old filed,
              ),
              runs,
              fresh,
              mine,
            )
      | inr (j, e) ↦
          let (found, there, owner) = v.indexed job.practice_session_id j e in
          rw (e, upsert_workspace_cleanup_job)
            (rw there (
              insert-IsLeased k session at j _ s
                (λ same. ground (arith, ap (λ i. lookup i s.cleanup_jobs) same))
                (old, filed, runs, fresh, mine)))
    ]

call-IsLeased :
    (c : JobCall) (s : MemoryStore) (k session at : ℕ)
    → JobsInv s
    → LeavesLease k session (at + workspace_cleanup_job_lease_timeout) c
    → IsLeased k session at s
    → IsLeased k session at (call_store c s)
call-IsLeased (upsert wall job) s k p at v l h = upsert-IsLeased wall job s k p at v l h
call-IsLeased (claim now limit) s k p at v l h = claim-IsLeased now limit s k p at v l h
call-IsLeased (mark_succeeded wall id) s k p at v l h =
    unfold call_store mark_workspace_cleanup_job_succeeded in
    change_job-IsLeased k p at id s _ _ _ l h
call-IsLeased (mark_failed wall id retry message) s k p at v l h =
    unfold call_store mark_workspace_cleanup_job_failed in change_job-IsLeased k p at id s _ _ _ l h
call-IsLeased (requeue wall id to) s k p at v l h =
    unfold call_store requeue_workspace_cleanup_job in change_job-IsLeased k p at id s _ _ _ l h

leased_not_handed_out :
    (cs : List JobCall) (s : MemoryStore) (k session at now : ℕ) (limit : ℤ)
    (job : WorkspaceCleanupJob)
    → JobsInv s
    → All IsFresh cs
    → All (LeavesLease k session (at + workspace_cleanup_job_lease_timeout)) cs
    → s.next_cleanup_job_id + length cs < u64_mod
    → IsLeased k session at s
    → now < at + workspace_cleanup_job_lease_timeout
    → In job (claimed_jobs now limit (call_all cs s))
    → job.id ≢ k
unfolding call_all
leased_not_handed_out [] s k p at now limit job v fresh leaves room (old, filed, runs, since, _)
      within h =
    λ same.
      let (before, filed', due, _, _, _, _) = claim_hands_out_due_jobs now limit s job v h in
      let e : lookup job.id s.cleanup_jobs ≡ some old =
        ap (λ i. lookup i s.cleanup_jobs) same ∙ filed in
      ground arith
leased_not_handed_out (c ∷ cs) s k p at now limit job v fresh leaves room leased within h =
    leased_not_handed_out cs (call_store c s) k p at now limit job
      (call_store-JobsInv c s fresh.0 (omega arith) v) fresh.1 leaves.1
      (omega (arith, next_id_step c s)) (call-IsLeased c s k p at v leaves.0 leased) within h

-- In a store whose job maps agree (JobsInv) and which has ids left, a job that a claim hands out is
-- handed out by no later claim whose time is before the end of the lease, where the calls between
-- the two are claims before this end, upserts for other sessions with no more attempts than the
-- maximum, and marks and requeues of other jobs.
pub claim_exclusive :
    (now later : ℕ) (limit limit' : ℤ) (s : MemoryStore) (cs : List JobCall)
    (job again : WorkspaceCleanupJob)
    → JobsInv s
    → In job (claimed_jobs now limit s)
    → All IsFresh cs
    → All
        (LeavesLease job.id job.practice_session_id (now + workspace_cleanup_job_lease_timeout))
        cs
    → s.next_cleanup_job_id + suc (length cs) < u64_mod
    → later < now + workspace_cleanup_job_lease_timeout
    → In again (claimed_jobs later limit' (call_all cs (call_store (claim now limit) s)))
    → again.id ≢ job.id
unfolding call_store
claim_exclusive now later limit limit' s cs job again v h fresh leaves room within h' =
    let (old, _, _, runs, _, stamp, filed) = claim_hands_out_due_jobs now limit s job v h in
    leased_not_handed_out cs (call_store (claim now limit) s) job.id job.practice_session_id now
      later limit' again (call_store-JobsInv (claim now limit) s tt (omega arith) v) fresh leaves
      (omega (arith, next_id_step (claim now limit) s))
      (job, filed, runs, omega (arith, stamp), refl) within h'
