-- ===== src/Api/Store/Lifecycle/Stranded.antt =====
-- Jobs of InMemoryPracticeSessionStore (practice_service.go) that no method gets going again.
use git_gym.Prelude.{
  ℕ, ◌+◌, ◌≤◌, ◌<◌, ◌≡◌, ◌≢◌, ap, ◌∙◌, inl, inr, Option, none, some, List, [], ◌∷◌, arith, length,
  All, In, Option-cases, Bool-cases, ◌==◌, ==_iff,
}
use git_gym.Prelude.Map.{lookup, insert, lookup-insert}
use git_gym.Prelude.Text.{ℤ}
use git_gym.Api.Domain.{WorkspaceCleanupJob, pending, workspace_cleanup_job_max_attempts, u64_mod}
use git_gym.Api.Errors.{Error, err, state}
use git_gym.Api.Store.State.{MemoryStore}
use git_gym.Api.Store.Jobs.{
  upsert_workspace_cleanup_job, mark_workspace_cleanup_job_succeeded,
  mark_workspace_cleanup_job_failed, requeue_workspace_cleanup_job, due_jobs, change_job,
}
use git_gym.Api.Store.Invariant.{JobsInv}
use git_gym.Api.Store.Claim.{
  claim_cases, claimed_jobs, claim_hands_out_due_jobs, due_job_filed, claim_loop_at,
}
use git_gym.Api.Store.Lifecycle.{
  JobCall, upsert, claim, mark_succeeded, mark_failed, requeue, call_store, call_all, IsFresh,
  call_store-JobsInv,
}
use git_gym.Api.Store.Lifecycle.History.{next_id_step}

-- A pending job whose attempts are used up.
abbrev pub IsStranded : ℕ → MemoryStore → Type 0
IsStranded k s =
    (job : WorkspaceCleanupJob) × (lookup k s.cleanup_jobs ≡ some job)
    × (job.status ≡ pending)
    × (workspace_cleanup_job_max_attempts ≤ job.attempt_count)

-- The calls that the service makes while it holds no lease on job `k` and no operator requeues it.
abbrev pub LeavesJob : ℕ → JobCall → Type 0
LeavesJob k (upsert wall job) = job.status ≡ pending
LeavesJob k (claim now limit) = Unit
LeavesJob k (mark_succeeded wall id) = id ≢ k
LeavesJob k (mark_failed wall id at message) = id ≢ k
LeavesJob k (requeue wall id at) = id ≢ k

-- A claim hands out no job whose attempts are used up.
pub claim_not_exhausted :
    (now : ℕ) (limit : ℤ) (s : MemoryStore) (k : ℕ) (old job : WorkspaceCleanupJob)
    → JobsInv s
    → lookup k s.cleanup_jobs ≡ some old
    → workspace_cleanup_job_max_attempts ≤ old.attempt_count
    → In job (claimed_jobs now limit s)
    → job.id ≢ k
claim_not_exhausted now limit s k old job v at used h same =
    let (before, filed, due, _, _, _, _) = claim_hands_out_due_jobs now limit s job v h in
    let e : lookup job.id s.cleanup_jobs ≡ some old = ap (λ i. lookup i s.cleanup_jobs) same ∙ at in
    ground arith

-- A job written under another key, or written as stranded, leaves the job stranded.
insert-IsStranded :
    (k j : ℕ) (new : WorkspaceCleanupJob) (s : MemoryStore)
    → (j ≡ k → (new.status ≡ pending) × (workspace_cleanup_job_max_attempts ≤ new.attempt_count))
    → IsStranded k s
    → IsStranded k (record s { cleanup_jobs = insert j new s.cleanup_jobs })
insert-IsStranded k j new s keeps (job, at, waits, used) = elim (Bool-cases (j == k)) [
  | inl hit ↦
      let (waits', used') = keeps ((==_iff j k).0 hit) in
      (new, rw lookup-insert (rw hit), waits', used')
  | inr miss ↦ (job, rw lookup-insert (rw miss at), waits, used)
]

change_job-IsStranded :
    (k id : ℕ) (s : MemoryStore) (o : Option WorkspaceCleanupJob) (e : Error)
    (change : WorkspaceCleanupJob → WorkspaceCleanupJob)
    → id ≢ k
    → IsStranded k s
    → IsStranded k (state (change_job (err e s) id o change tt s))
change_job-IsStranded k id s none e change others h = h
change_job-IsStranded k id s (some job) e change others h =
    insert-IsStranded k id (change job) s (λ same. absurd (others same)) h

claim-IsStranded :
    (now : ℕ) (limit : ℤ) (s : MemoryStore) (k : ℕ)
    → JobsInv s
    → IsStranded k s
    → IsStranded k (call_store (claim now limit) s)
unfolding call_store
claim-IsStranded now limit s k v (job, at, waits, used) = elim (claim_cases now limit s) [
  | inl (_, same) ↦ rw same (job, at, waits, used)
  | inr (_, after) ↦ rw after (elim (claim_loop_at now (due_jobs now limit s) s.cleanup_jobs k) [
    | inl (kept, _) ↦ (job, kept ∙ at, waits, used)
    | inr (taken, there, id, _) ↦
        let (filed, due) = due_job_filed now limit s v taken there in
        let e : lookup taken.id s.cleanup_jobs ≡ some job =
          ap (λ i. lookup i s.cleanup_jobs) id ∙ at in
        absurd (ground arith)
  ])
]

upsert-IsStranded :
    (wall : ℕ) (job : WorkspaceCleanupJob) (s : MemoryStore) (k : ℕ)
    → JobsInv s
    → job.status ≡ pending
    → IsStranded k s
    → IsStranded k (call_store (upsert wall job) s)
unfolding call_store upsert_workspace_cleanup_job
upsert-IsStranded wall job s k v fresh (old, at, waits, used) =
    elim (Option-cases (lookup job.practice_session_id s.cleanup_job_by_session)) [
      | inl e ↦
          rw (e, upsert_workspace_cleanup_job)
            (
              old,
              ground (
                arith,
                lookup-insert s.next_cleanup_job_id k
                    (record job {
                      id = s.next_cleanup_job_id;
                      created_at = wall;
                      updated_at = wall;
                    })
                    s.cleanup_jobs,
                v.filed k old at,
              ),
              waits,
              used,
            )
      | inr (j, e) ↦
          let (mine, there, session) = v.indexed job.practice_session_id j e in
          rw (e, upsert_workspace_cleanup_job)
            (rw there (
              insert-IsStranded k j _ s
                (λ same. (fresh, ground (arith, ap (λ i. lookup i s.cleanup_jobs) same)))
                (old, at, waits, used)))
    ]

call-IsStranded :
    (c : JobCall) (s : MemoryStore) (k : ℕ)
    → JobsInv s
    → LeavesJob k c
    → IsStranded k s
    → IsStranded k (call_store c s)
call-IsStranded (upsert wall job) s k v l h = upsert-IsStranded wall job s k v l h
call-IsStranded (claim now limit) s k v l h = claim-IsStranded now limit s k v h
call-IsStranded (mark_succeeded wall id) s k v l h =
    unfold call_store mark_workspace_cleanup_job_succeeded in change_job-IsStranded k id s _ _ _ l h
call-IsStranded (mark_failed wall id at message) s k v l h =
    unfold call_store mark_workspace_cleanup_job_failed in change_job-IsStranded k id s _ _ _ l h
call-IsStranded (requeue wall id at) s k v l h =
    unfold call_store requeue_workspace_cleanup_job in change_job-IsStranded k id s _ _ _ l h

-- In a store whose job maps agree and has ids left, a pending job whose attempts are used up is
-- handed out by no claim behind a history of calls that neither mark nor requeue that job and whose
-- upserts are of pending jobs.
pub stranded_forever :
    (cs : List JobCall) (s : MemoryStore) (k now : ℕ) (limit : ℤ) (job : WorkspaceCleanupJob)
    → JobsInv s
    → All IsFresh cs
    → All (LeavesJob k) cs
    → s.next_cleanup_job_id + length cs < u64_mod
    → IsStranded k s
    → In job (claimed_jobs now limit (call_all cs s))
    → job.id ≢ k
unfolding call_all
stranded_forever [] s k now limit job v fresh leaves room (old, at, waits, used) h =
    claim_not_exhausted now limit s k old job v at used h
stranded_forever (c ∷ cs) s k now limit job v fresh leaves room stranded h =
    stranded_forever cs (call_store c s) k now limit job
      (call_store-JobsInv c s fresh.0 (omega arith) v) fresh.1 leaves.1
      (omega (arith, next_id_step c s)) (call-IsStranded c s k v leaves.0 stranded) h
