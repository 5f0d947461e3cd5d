-- ===== src/Api/Store/Invariant.antt =====
-- What holds of the cleanup jobs of InMemoryPracticeSessionStore between two calls: the map and its
-- index by session agree, and no attempt count passes the maximum.
use git_gym.Prelude.{ℕ, ◌≤◌, ◌<◌, ◌≡◌, sym, ◌∙◌, ◌⊎◌, inl, inr, some, List, arith, ◌==◌, Bool-cases}
use git_gym.Prelude.Map.{lookup, insert, UniqueKeys, insert-UniqueKeys, lookup-insert}
use git_gym.Api.Domain.{WorkspaceCleanupJob, workspace_cleanup_job_max_attempts}
use git_gym.Api.Store.State.{MemoryStore}

abbrev pub IsFiled : MemoryStore → ℕ → WorkspaceCleanupJob → Type 0
IsFiled s k job =
    (job.id ≡ k)
    × (job.attempt_count ≤ workspace_cleanup_job_max_attempts)
    × (k < s.next_cleanup_job_id)
    × (lookup job.practice_session_id s.cleanup_job_by_session ≡ some k)

pub record JobsInv (s : MemoryStore) : Type 0 where
  pub unique : UniqueKeys s.cleanup_jobs
  pub filed :
      (k : ℕ) (job : WorkspaceCleanupJob) → lookup k s.cleanup_jobs ≡ some job → IsFiled s k job
  pub indexed :
      (p k : ℕ)
      → lookup p s.cleanup_job_by_session ≡ some k
      → (job : WorkspaceCleanupJob) × (lookup k s.cleanup_jobs ≡ some job)
        × (job.practice_session_id ≡ p)

-- A job changed in place: it stays the job of its session.
abbrev pub Revises : WorkspaceCleanupJob → WorkspaceCleanupJob → Type 0
Revises old new =
    (new.id ≡ old.id)
    × (new.practice_session_id ≡ old.practice_session_id)
    × (new.attempt_count ≤ workspace_cleanup_job_max_attempts)

abbrev pub RevisesAt : List (ℕ × WorkspaceCleanupJob) → List (ℕ × WorkspaceCleanupJob) → ℕ → Type 0
RevisesAt jobs jobs' k =
    (lookup k jobs' ≡ lookup k jobs)
    ⊎ ((old : WorkspaceCleanupJob) × (new : WorkspaceCleanupJob) × (lookup k jobs ≡ some old)
        × (lookup k jobs' ≡ some new)
        × Revises old new)

module _ (s : MemoryStore) (jobs' : List (ℕ × WorkspaceCleanupJob)) (v : JobsInv s)
    (rev : (k : ℕ) → RevisesAt s.cleanup_jobs jobs' k) where
  IsFiled-after : (k : ℕ) (job : WorkspaceCleanupJob) → lookup k jobs' ≡ some job → IsFiled s k job
  IsFiled-after k job e = elim (rev k) [
    | inl same ↦ v.filed k job (sym same ∙ e)
    | inr (old, new, was, now, r) ↦ ground (arith, v.filed k old was)
  ]

  indexed_after :
      (p k : ℕ)
      → lookup p s.cleanup_job_by_session ≡ some k
      → (job : WorkspaceCleanupJob) × (lookup k jobs' ≡ some job) × (job.practice_session_id ≡ p)
  indexed_after p k e =
      let (job, at, session) = v.indexed p k e in
      elim (rev k) [
        | inl same ↦ (job, same ∙ at, session)
        | inr (old, new, was, now, r) ↦ (new, now, ground arith)
      ]

  pub revise-JobsInv : UniqueKeys jobs' → JobsInv (record s { cleanup_jobs = jobs' })
  revise-JobsInv u = record { unique = u; filed = IsFiled-after; indexed = indexed_after }

-- One job revised.
pub insert-JobsInv :
    (s : MemoryStore) (k : ℕ) (old new : WorkspaceCleanupJob)
    → JobsInv s
    → lookup k s.cleanup_jobs ≡ some old
    → Revises old new
    → JobsInv (record s { cleanup_jobs = insert k new s.cleanup_jobs })
insert-JobsInv s k old new v e r =
    revise-JobsInv s _ v (λ j. at j) (insert-UniqueKeys k new s.cleanup_jobs v.unique)
  where
    at : (j : ℕ) → RevisesAt s.cleanup_jobs (insert k new s.cleanup_jobs) j
    at j = elim (Bool-cases (k == j)) [
      | inl hit ↦ inr (old, new, ground arith, rw lookup-insert (rw hit), r)
      | inr miss ↦ inl (rw lookup-insert (rw miss))
    ]

-- A session has one job at most.
pub job_of_session_unique :
    (s : MemoryStore) (j k : ℕ) (a b : WorkspaceCleanupJob)
    → JobsInv s
    → lookup j s.cleanup_jobs ≡ some a
    → lookup k s.cleanup_jobs ≡ some b
    → a.practice_session_id ≡ b.practice_session_id
    → j ≡ k
job_of_session_unique s j k a b v p q e = ground (arith, v.filed j a p, v.filed k b q)
