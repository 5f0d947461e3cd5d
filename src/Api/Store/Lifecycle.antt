-- ===== src/Api/Store/Lifecycle.antt =====
-- A history of cleanup-job calls on InMemoryPracticeSessionStore (practice_service.go).
pub mod History
pub mod Stranded
pub mod Lease
pub mod Requeue
pub mod Retries
use git_gym.Prelude.{
  ℕ, ◌+◌, ◌%◌, ◌≤◌, ◌<◌, ◌≡◌, refl, inl, inr, Option, none, some, List, [], ◌∷◌, arith,
  Option-cases, ◌==◌, Bool-cases, if◌then◌else◌,
}
use git_gym.Prelude.Map.{lookup, insert, insert-UniqueKeys, lookup-insert}
use git_gym.Prelude.Text.{Text, ℤ}
use git_gym.Api.Domain.{WorkspaceCleanupJob, workspace_cleanup_job_max_attempts, u64_mod}
use git_gym.Api.Errors.{Error, err, state}
use git_gym.Api.Store.State.{MemoryStore}
use git_gym.Api.Store.Jobs.{
  upsert_workspace_cleanup_job, claim_due_workspace_cleanup_jobs,
  mark_workspace_cleanup_job_succeeded, mark_workspace_cleanup_job_failed,
  requeue_workspace_cleanup_job, change_job,
}
use git_gym.Api.Store.Invariant.{JobsInv, IsFiled, Revises, insert-JobsInv}
use git_gym.Api.Store.Claim.{claim-JobsInv}

-- A call of a method that changes jobs, with the time that it reads.
pub data JobCall : Type 0 where
  upsert : ℕ → WorkspaceCleanupJob → JobCall
  claim : ℕ → ℤ → JobCall
  mark_succeeded : ℕ → ℕ → JobCall
  mark_failed : ℕ → ℕ → ℕ → Text → JobCall
  requeue : ℕ → ℕ → ℕ → JobCall

unfoldable pub call_store : JobCall → MemoryStore → MemoryStore
call_store (upsert wall job) s = state (upsert_workspace_cleanup_job wall job s)
call_store (claim now limit) s = state (claim_due_workspace_cleanup_jobs now limit s)
call_store (mark_succeeded wall id) s = state (mark_workspace_cleanup_job_succeeded wall id s)
call_store (mark_failed wall id at message) s =
    state (mark_workspace_cleanup_job_failed wall id at message s)
call_store (requeue wall id at) s = state (requeue_workspace_cleanup_job wall id at s)

unfoldable pub call_all : List JobCall → MemoryStore → MemoryStore
call_all [] s = s
call_all (c ∷ cs) s = call_all cs (call_store c s)

-- The service upserts jobs with no attempts yet.
abbrev pub IsFresh : JobCall → Type 0
IsFresh (upsert wall job) = job.attempt_count ≤ workspace_cleanup_job_max_attempts
IsFresh _ = Unit

-- The job that an upsert adds for a session without one, and the store that it leaves.
abbrev added_job : ℕ → WorkspaceCleanupJob → MemoryStore → WorkspaceCleanupJob
added_job wall job s = record job {
  id = s.next_cleanup_job_id;
  created_at = wall;
  updated_at = wall;
}

abbrev added_store : ℕ → WorkspaceCleanupJob → MemoryStore → MemoryStore
added_store wall job s = record s {
  next_cleanup_job_id = (s.next_cleanup_job_id + 1) % u64_mod;
  cleanup_jobs = insert s.next_cleanup_job_id (added_job wall job s) s.cleanup_jobs;
  cleanup_job_by_session =
      insert job.practice_session_id s.next_cleanup_job_id s.cleanup_job_by_session;
}

module _ (wall : ℕ) (job : WorkspaceCleanupJob) (s : MemoryStore) (v : JobsInv s)
    (fresh : job.attempt_count ≤ workspace_cleanup_job_max_attempts)
    (room : s.next_cleanup_job_id + 1 < u64_mod)
    (missing : lookup job.practice_session_id s.cleanup_job_by_session ≡ none) where
  added-IsFiled :
      (k : ℕ) (j : WorkspaceCleanupJob)
      → lookup k (added_store wall job s).cleanup_jobs ≡ some j
      → IsFiled (added_store wall job s) k j
  added-IsFiled k j e = ground (
    arith,
    lookup-insert s.next_cleanup_job_id k (added_job wall job s) s.cleanup_jobs,
    lookup-insert job.practice_session_id j.practice_session_id s.next_cleanup_job_id
        s.cleanup_job_by_session,
    v.filed k j,
  )

  added_indexed :
      (p k : ℕ)
      → lookup p (added_store wall job s).cleanup_job_by_session ≡ some k
      → (j : WorkspaceCleanupJob) × (lookup k (added_store wall job s).cleanup_jobs ≡ some j)
        × (j.practice_session_id ≡ p)
  added_indexed p k e = elim (Bool-cases (job.practice_session_id == p)) [
    | inl hit ↦ (added_job wall job s, ground (arith, at_new, at_index), ground arith)
    | inr miss ↦
        let (j, at, session) = v.indexed p k (ground (arith, at_index)) in
        (j, ground (arith, at_new, v.filed k j at), session)
  ]
    where
      at_index : lookup p (added_store wall job s).cleanup_job_by_session ≡ (
          if job.practice_session_id == p
          then some s.next_cleanup_job_id
          else lookup p s.cleanup_job_by_session)
      at_index =
          lookup-insert job.practice_session_id p s.next_cleanup_job_id s.cleanup_job_by_session

      at_new : lookup k (added_store wall job s).cleanup_jobs ≡ (
          if s.next_cleanup_job_id == k
          then some (added_job wall job s)
          else lookup k s.cleanup_jobs)
      at_new = lookup-insert s.next_cleanup_job_id k (added_job wall job s) s.cleanup_jobs

  added-JobsInv : JobsInv (added_store wall job s)
  added-JobsInv = record {
    unique = insert-UniqueKeys s.next_cleanup_job_id _ s.cleanup_jobs v.unique;
    filed = added-IsFiled;
    indexed = added_indexed;
  }

upsert-JobsInv :
    (wall : ℕ) (job : WorkspaceCleanupJob) (s : MemoryStore)
    → JobsInv s
    → job.attempt_count ≤ workspace_cleanup_job_max_attempts
    → s.next_cleanup_job_id + 1 < u64_mod
    → JobsInv (state (upsert_workspace_cleanup_job wall job s))
unfolding upsert_workspace_cleanup_job
upsert-JobsInv wall job s v fresh room =
    elim (Option-cases (lookup job.practice_session_id s.cleanup_job_by_session)) [
      | inl e ↦ rw (e, upsert_workspace_cleanup_job) (added-JobsInv wall job s v fresh room e)
      | inr (k, e) ↦
          let (old, at, session) = v.indexed job.practice_session_id k e in
          rw (e, upsert_workspace_cleanup_job)
            (rw at (insert-JobsInv s k old _ v at (refl, refl, (v.filed k old at).1)))
    ]

-- The three methods that look a job up by its id.
change_job-JobsInv :
    (s : MemoryStore) (id : ℕ) (o : Option WorkspaceCleanupJob)
    (change : WorkspaceCleanupJob → WorkspaceCleanupJob) (e : Error)
    → JobsInv s
    → lookup id s.cleanup_jobs ≡ o
    → ((old : WorkspaceCleanupJob)
        → old.attempt_count ≤ workspace_cleanup_job_max_attempts
        → Revises old (change old))
    → JobsInv (state (change_job (err e s) id o change tt s))
change_job-JobsInv s id none change e v at r = v
change_job-JobsInv s id (some old) change e v at r =
    insert-JobsInv s id old (change old) v at (r old (v.filed id old at).1)

-- Every call keeps the map of jobs and its index in step and the attempt counts within the maximum.
pub call_store-JobsInv :
    (c : JobCall) (s : MemoryStore)
    → IsFresh c
    → s.next_cleanup_job_id + 1 < u64_mod
    → JobsInv s
    → JobsInv (call_store c s)
unfolding call_store
call_store-JobsInv (upsert wall job) s fresh room v = upsert-JobsInv wall job s v fresh room
call_store-JobsInv (claim now limit) s fresh room v = claim-JobsInv now limit s v
call_store-JobsInv (mark_succeeded wall id) s fresh room v =
    unfold mark_workspace_cleanup_job_succeeded in
    change_job-JobsInv s id (lookup id s.cleanup_jobs) _ _ v refl (λ old h. (refl, refl, h))
call_store-JobsInv (mark_failed wall id at message) s fresh room v =
    unfold mark_workspace_cleanup_job_failed in
    change_job-JobsInv s id (lookup id s.cleanup_jobs) _ _ v refl (λ old h. (refl, refl, h))
call_store-JobsInv (requeue wall id at) s fresh room v =
    unfold requeue_workspace_cleanup_job in
    change_job-JobsInv s id (lookup id s.cleanup_jobs) _ _ v refl
      (λ old h. (refl, refl, omega arith))
