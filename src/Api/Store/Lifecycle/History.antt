-- ===== src/Api/Store/Lifecycle/History.antt =====
-- Histories of cleanup-job calls from an empty InMemoryPracticeSessionStore (practice_service.go).
use git_gym.Prelude.{◌+◌, ◌≤◌, ◌<◌, inl, inr, List, [], ◌∷◌, arith, length, All, Option-cases}
use git_gym.Prelude.Map.{lookup}
use git_gym.Api.Domain.{u64_mod}
use git_gym.Api.Store.State.{MemoryStore, new_memory_store}
use git_gym.Api.Store.Jobs.{
  upsert_workspace_cleanup_job, mark_workspace_cleanup_job_succeeded,
  mark_workspace_cleanup_job_failed, requeue_workspace_cleanup_job,
}
use git_gym.Api.Store.Invariant.{JobsInv}
use git_gym.Api.Store.Claim.{claim_cases}
use git_gym.Api.Store.Lifecycle.{
  JobCall, upsert, claim, mark_succeeded, mark_failed, requeue, call_store, call_all, IsFresh,
  call_store-JobsInv,
}

-- A call takes one id at most.
pub next_id_step :
    (c : JobCall) (s : MemoryStore)
    → (call_store c s).next_cleanup_job_id ≤ s.next_cleanup_job_id + 1
unfolding call_store
next_id_step (upsert wall job) s =
    unfold upsert_workspace_cleanup_job in
    elim (Option-cases (lookup job.practice_session_id s.cleanup_job_by_session)) [
      | inl e ↦ rw (e, upsert_workspace_cleanup_job) (omega arith)
      | inr (k, e) ↦ rw (e, upsert_workspace_cleanup_job) (omega arith)
    ]
next_id_step (claim now limit) s = elim (claim_cases now limit s) [
  | inl (_, same) ↦ rw same (omega arith)
  | inr (_, after) ↦ rw after (omega arith)
]
next_id_step (mark_succeeded wall id) s =
    unfold mark_workspace_cleanup_job_succeeded in ground arith
next_id_step (mark_failed wall id at message) s =
    unfold mark_workspace_cleanup_job_failed in ground arith
next_id_step (requeue wall id at) s = unfold requeue_workspace_cleanup_job in ground arith

call_all_from-JobsInv :
    (cs : List JobCall) (s : MemoryStore)
    → All IsFresh cs
    → s.next_cleanup_job_id + length cs < u64_mod
    → JobsInv s
    → JobsInv (call_all cs s)
unfolding call_all
call_all_from-JobsInv [] s fresh room v = v
call_all_from-JobsInv (c ∷ cs) s fresh room v =
    call_all_from-JobsInv cs (call_store c s) fresh.1 (omega (arith, next_id_step c s))
      (call_store-JobsInv c s fresh.0 (omega arith) v)

-- After any history of fewer than 2 ^ 64 - 1 calls on a new store, in which no upsert brings more
-- attempts than the maximum, each session has one job at most, each job is found through its
-- session, and no job has more attempts than the maximum.
pub call_all-JobsInv :
    (cs : List JobCall)
    → All IsFresh cs
    → 1 + length cs < u64_mod
    → JobsInv (call_all cs new_memory_store)
unfolding new_memory_store lookup
call_all-JobsInv cs fresh room =
    call_all_from-JobsInv cs new_memory_store fresh room
      (record { unique = tt; filed = λ k job e. cc; indexed = λ p k e. absurd (cc) })
