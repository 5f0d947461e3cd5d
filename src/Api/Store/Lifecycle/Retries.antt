-- ===== src/Api/Store/Lifecycle/Retries.antt =====
-- How often a job of InMemoryPracticeSessionStore (practice_service.go) is tried.
use git_gym.Prelude.{
  ℕ, ◌+◌, ◌≤◌, ◌<◌, ◌≡◌, ◌≢◌, refl, sym, ap, ◌∙◌, inl, inr, Bool, true, false, ◌||◌, Option, none,
  some, List, [], ◌∷◌, map, arith, length, All, In, Option-cases, Bool-cases, ◌==◌, ==_iff,
  if◌then◌else◌,
}
use git_gym.Prelude.Map.{lookup, insert, lookup-insert}
use git_gym.Prelude.Text.{ℤ}
use git_gym.Api.Domain.{WorkspaceCleanupJob, workspace_cleanup_job_max_attempts, u64_mod}
use git_gym.Api.Errors.{Error, err, state}
use git_gym.Api.Store.State.{MemoryStore}
use git_gym.Api.Store.Jobs.{
  upsert_workspace_cleanup_job, mark_workspace_cleanup_job_succeeded,
  mark_workspace_cleanup_job_failed, requeue_workspace_cleanup_job, due_jobs, change_job,
  claimed_job,
}
use git_gym.Api.Store.Invariant.{JobsInv}
use git_gym.Api.Store.Claim.{claim_cases, claimed_jobs, due_job_filed, claim_loop_at}
use git_gym.Api.Store.Lifecycle.{
  JobCall, upsert, claim, mark_succeeded, mark_failed, requeue, call_store, IsFresh,
  call_store-JobsInv,
}
use git_gym.Api.Store.Lifecycle.History.{next_id_step}

abbrev has_id : ℕ → List WorkspaceCleanupJob → Bool
has_id k [] = false
has_id k (job ∷ jobs) = job.id == k || has_id k jobs

-- How often a call, and a history of calls, hands out job `k`.
abbrev pub call_handouts : ℕ → JobCall → MemoryStore → ℕ
call_handouts k (claim now limit) s = if has_id k (claimed_jobs now limit s) then 1 else 0
call_handouts k (upsert wall job) s = 0
call_handouts k (mark_succeeded wall id) s = 0
call_handouts k (mark_failed wall id at message) s = 0
call_handouts k (requeue wall id at) s = 0

abbrev pub handouts : ℕ → List JobCall → MemoryStore → ℕ
handouts k [] s = 0
handouts k (c ∷ cs) s = call_handouts k c s + handouts k cs (call_store c s)

-- No operator requeues job `k`.
abbrev pub NotRequeued : ℕ → JobCall → Type 0
NotRequeued k (requeue wall id at) = id ≢ k
NotRequeued k _ = Unit

abbrev AttemptsAt : ℕ → MemoryStore → ℕ → Type 0
AttemptsAt k s n =
    (job : WorkspaceCleanupJob) × (lookup k s.cleanup_jobs ≡ some job) × (job.attempt_count ≡ n)

has_id-claimed_none :
    (now k : ℕ) (due : List WorkspaceCleanupJob)
    → All (λ job. job.id ≢ k) due
    → has_id k (map (claimed_job now) due) ≡ false
unfolding claimed_job
has_id-claimed_none now k [] others = refl
has_id-claimed_none now k (job ∷ due) others =
    ground (arith, has_id-claimed_none now k due others.1)

has_id-claimed_some :
    (now k : ℕ) (taken : WorkspaceCleanupJob) (due : List WorkspaceCleanupJob)
    → In taken due
    → taken.id ≡ k
    → has_id k (map (claimed_job now) due) ≡ true
unfolding claimed_job
has_id-claimed_some now k taken [] there same = absurd there
has_id-claimed_some now k taken (job ∷ due) (inl q) same = ground (arith)
has_id-claimed_some now k taken (job ∷ due) (inr q) same =
    ground (arith, has_id-claimed_some now k taken due q same)

same_count :
    (a b : WorkspaceCleanupJob)
    → ◌≡◌ {A = Option WorkspaceCleanupJob} (some a) (some b)
    → a.attempt_count ≡ b.attempt_count
same_count a b h = ground arith

counted :
    (now n : ℕ) (taken job : WorkspaceCleanupJob) (there : Bool)
    → ◌≡◌ {A = Option WorkspaceCleanupJob} (some taken) (some job)
    → taken.attempt_count < workspace_cleanup_job_max_attempts
    → job.attempt_count ≡ n
    → there ≡ true
    → (claimed_job now taken).attempt_count ≡ n + (if there then 1 else 0)
unfolding claimed_job
counted now n taken job there same due count h = ground (arith, same_count taken job same)

claimed-AttemptsAt :
    (now : ℕ) (limit : ℤ) (s : MemoryStore) (k n : ℕ)
    → JobsInv s
    → AttemptsAt k s n
    → AttemptsAt k (call_store (claim now limit) s) (n + call_handouts k (claim now limit) s)
unfolding call_store
claimed-AttemptsAt now limit s k n v (job, at, count) = elim (claim_cases now limit s) [
  | inl (none_due, same) ↦ rw (same, none_due) (job, at, ground (arith, count))
  | inr (jobs, after) ↦
      rw (after, jobs)
        (elim (claim_loop_at now (due_jobs now limit s) s.cleanup_jobs k) [
          | inl (kept, others) ↦ (
            job,
            kept ∙ at,
            ground (arith, count, has_id-claimed_none now k (due_jobs now limit s) others),
          )
          | inr (taken, there, id, filed) ↦
              let (old, due) = due_job_filed now limit s v taken there in
              let e : lookup taken.id s.cleanup_jobs ≡ some job =
                ap (λ i. lookup i s.cleanup_jobs) id ∙ at in
              (
                claimed_job now taken,
                filed,
                counted now n taken job _ (sym old ∙ e) due.0 count
                    (has_id-claimed_some now k taken (due_jobs now limit s) there id),
              )
        ])
]

insert-AttemptsAt :
    (k j n : ℕ) (new : WorkspaceCleanupJob) (s : MemoryStore)
    → (j ≡ k → new.attempt_count ≡ n)
    → AttemptsAt k s n
    → AttemptsAt k (record s { cleanup_jobs = insert j new s.cleanup_jobs }) n
insert-AttemptsAt k j n new s keeps (job, at, count) = elim (Bool-cases (j == k)) [
  | inl hit ↦ (new, rw lookup-insert (rw hit), keeps ((==_iff j k).0 hit))
  | inr miss ↦ (job, rw lookup-insert (rw miss at), count)
]

change_job-AttemptsAt :
    (k id n : ℕ) (s : MemoryStore) (o : Option WorkspaceCleanupJob) (e : Error)
    (change : WorkspaceCleanupJob → WorkspaceCleanupJob)
    → lookup id s.cleanup_jobs ≡ o
    → (id ≡ k → (job : WorkspaceCleanupJob) → (change job).attempt_count ≡ job.attempt_count)
    → AttemptsAt k s n
    → AttemptsAt k (state (change_job (err e s) id o change tt s)) n
change_job-AttemptsAt k id n s none e change found keeps h = h
change_job-AttemptsAt k id n s (some old) e change found keeps (job, at, count) =
    insert-AttemptsAt k id n (change old) s
      (λ same.
        keeps same old
        ∙ same_count old job (sym found ∙ (ap (λ i. lookup i s.cleanup_jobs) same ∙ at))
        ∙ count)
      (job, at, count)

upsert-AttemptsAt :
    (wall : ℕ) (job : WorkspaceCleanupJob) (s : MemoryStore) (k n : ℕ)
    → JobsInv s
    → AttemptsAt k s n
    → AttemptsAt k (call_store (upsert wall job) s) n
unfolding call_store upsert_workspace_cleanup_job
upsert-AttemptsAt wall job s k n v (old, at, count) =
    elim (Option-cases (lookup job.practice_session_id s.cleanup_job_by_session)) [
      | inl e ↦
          rw (e, upsert_workspace_cleanup_job)
            (insert-AttemptsAt k s.next_cleanup_job_id n _ s
              (λ same. absurd (ground (arith, v.filed k old at))) (old, at, count))
      | inr (j, e) ↦
          let (mine, there, session) = v.indexed job.practice_session_id j e in
          rw (e, upsert_workspace_cleanup_job)
            (rw there (
              insert-AttemptsAt k j n _ s
                (λ same.
                  same_count mine old (sym there ∙ (ap (λ i. lookup i s.cleanup_jobs) same ∙ at))
                  ∙ count)
                (old, at, count)))
    ]

no_try : (k n : ℕ) (s : MemoryStore) → AttemptsAt k s n → AttemptsAt k s (n + 0)
no_try k n s (job, at, count) = (job, at, ground (arith, count))

call-AttemptsAt :
    (c : JobCall) (s : MemoryStore) (k n : ℕ)
    → JobsInv s
    → NotRequeued k c
    → AttemptsAt k s n
    → AttemptsAt k (call_store c s) (n + call_handouts k c s)
call-AttemptsAt (upsert wall job) s k n v l h =
    no_try k n (call_store (upsert wall job) s) (upsert-AttemptsAt wall job s k n v h)
call-AttemptsAt (claim now limit) s k n v l h = claimed-AttemptsAt now limit s k n v h
call-AttemptsAt (mark_succeeded wall id) s k n v l h =
    no_try k n (call_store (mark_succeeded wall id) s) (
      unfold call_store mark_workspace_cleanup_job_succeeded in
      change_job-AttemptsAt k id n s _ _ _ refl (λ same job. refl) h)
call-AttemptsAt (mark_failed wall id at message) s k n v l h =
    no_try k n (call_store (mark_failed wall id at message) s) (
      unfold call_store mark_workspace_cleanup_job_failed in
      change_job-AttemptsAt k id n s _ _ _ refl (λ same job. refl) h)
call-AttemptsAt (requeue wall id at) s k n v l h = no_try k n (call_store (requeue wall id at) s) (
    unfold call_store requeue_workspace_cleanup_job in
    change_job-AttemptsAt k id n s _ _ _ refl (λ same job. absurd (l same)) h)

-- In a store whose job maps agree and has ids left, the attempts that a job has and the claims that
-- hand it out, in any history of calls that does not requeue it and whose upserts bring no more
-- attempts than the maximum, are together no more than the maximum of five.
pub handouts_bounded :
    (cs : List JobCall) (s : MemoryStore) (k : ℕ) (job : WorkspaceCleanupJob)
    → JobsInv s
    → All IsFresh cs
    → All (NotRequeued k) cs
    → s.next_cleanup_job_id + length cs < u64_mod
    → lookup k s.cleanup_jobs ≡ some job
    → job.attempt_count + handouts k cs s ≤ workspace_cleanup_job_max_attempts
handouts_bounded cs s k job v fresh leaves room at =
    bounded cs s (job.attempt_count) v fresh leaves room (job, at, refl)
  where
    bounded :
        (cs : List JobCall) (s : MemoryStore) (n : ℕ)
        → JobsInv s
        → All IsFresh cs
        → All (NotRequeued k) cs
        → s.next_cleanup_job_id + length cs < u64_mod
        → AttemptsAt k s n
        → n + handouts k cs s ≤ workspace_cleanup_job_max_attempts
    bounded [] s n v fresh leaves room (job, at, count) = ground (arith, v.filed k job at)
    bounded (c ∷ cs) s n v fresh leaves room h = ground (
      arith,
      bounded cs (call_store c s) (n + call_handouts k c s)
          (call_store-JobsInv c s fresh.0 (omega arith) v) fresh.1 leaves.1
          (omega (arith, next_id_step c s)) (call-AttemptsAt c s k n v leaves.0 h),
    )
