-- ===== src/Api/Store/Claim.antt =====
-- ClaimDueWorkspaceCleanupJobs (practice_service.go): which jobs a claim hands out.
pub mod Order
use git_gym.Prelude.{
  ℕ, ◌+◌, ◌≤◌, ◌<◌, ◌≡◌, ◌≢◌, refl, sym, ap, ◌∙◌, ◌⊎◌, inl, inr, true, false, some, List, [], ◌∷◌,
  map, arith, ◌==◌, Bool-cases, In, All, In-take, In-map, In-keep, In-All, keep, length,
  length-take_le, length-map, map-In, keep-In,
}
use git_gym.Prelude.Map.{
  lookup, insert, values, UniqueKeys, insert-UniqueKeys, lookup-insert, values-lookup,
}
use git_gym.Prelude.Sort.{
  sort, In-sort, sort-In, IsSorted, sort-IsSorted, take-IsSorted, take_leaves_out,
}
use git_gym.Prelude.Text.{ℤ, pos, negsuc, pos_part}
use git_gym.Api.Domain.{
  WorkspaceCleanupJob, Status, running, pending, failed, workspace_cleanup_job_max_attempts,
  workspace_cleanup_job_lease_timeout,
}
use git_gym.Api.Errors.{Out, ok, err, state}
use git_gym.Api.Store.State.{MemoryStore}
use git_gym.Api.Store.Jobs.{
  is_due, due_jobs, claimed_job, claim_loop, claim_due_workspace_cleanup_jobs, is_before,
}
use git_gym.Api.Store.Invariant.{JobsInv, RevisesAt, revise-JobsInv}

-- What a claim returns; the method never fails.
abbrev pub result {ℓ} : {W : Type 0} {A : Type 0} {P : Type ℓ} → (A → P) → P → Out W A → P
result f d (ok a w) = f a
result f d (err e w) = d

abbrev pub claimed_jobs : ℕ → ℤ → MemoryStore → List WorkspaceCleanupJob
claimed_jobs now limit s = result (λ js. js) [] (claim_due_workspace_cleanup_jobs now limit s)

abbrev pub claimed_store : ℕ → ℤ → MemoryStore → MemoryStore
claimed_store now limit s = state (claim_due_workspace_cleanup_jobs now limit s)

-- A due job is pending or failed with its time come, or runs without a sign of life for the length
-- of the lease; its attempts are not used up.
abbrev pub DueAt : ℕ → WorkspaceCleanupJob → Type 0
DueAt now job =
    (job.attempt_count < workspace_cleanup_job_max_attempts)
    × (((job.status ≡ pending) × (job.scheduled_at ≤ now))
        ⊎ (((job.status ≡ failed) × (job.scheduled_at ≤ now))
            ⊎ ((job.status ≡ running)
                × (job.updated_at + workspace_cleanup_job_lease_timeout ≤ now))))

due_in :
    (st : Status) (now : ℕ) (job : WorkspaceCleanupJob)
    → job.status ≡ st
    → is_due now job ≡ true
    → DueAt now job
unfolding is_due
due_in pending now job e h = ground arith
due_in failed now job e h = ground arith
due_in running now job e h = ground arith
due_in _ now job e h = ground arith

pub is_due-DueAt : (now : ℕ) (job : WorkspaceCleanupJob) → is_due now job ≡ true → DueAt now job
is_due-DueAt now job h = due_in job.status now job refl h

-- The jobs that a claim takes stood in the map and were due.
pub due_jobs-In :
    (now : ℕ) (limit : ℤ) (s : MemoryStore) (job : WorkspaceCleanupJob)
    → In job (due_jobs now limit s)
    → In job (values s.cleanup_jobs) × (is_due now job ≡ true)
unfolding due_jobs
due_jobs-In now limit s job h =
    In-keep (is_due now) job (values s.cleanup_jobs)
      (In-sort is_before job _ (In-take (pos_part limit) job _ h))

-- The write-back, key by key.
pub claim_loop_at :
    (now : ℕ) (due : List WorkspaceCleanupJob) (jobs : List (ℕ × WorkspaceCleanupJob)) (k : ℕ)
    → ((lookup k (claim_loop now due jobs) ≡ lookup k jobs) × All (λ job. job.id ≢ k) due)
      ⊎ ((job : WorkspaceCleanupJob) × In job due
          × (job.id ≡ k)
          × (lookup k (claim_loop now due jobs) ≡ some (claimed_job now job)))
unfolding claim_loop
claim_loop_at now [] jobs k = inl (refl, tt)
claim_loop_at now (job ∷ due) jobs k =
    elim (claim_loop_at now due (insert job.id (claimed_job now job) jobs) k) [
      | inl (same, others) ↦ elim (Bool-cases (job.id == k)) [
        | inl hit ↦ inr (job, inl refl, ground arith, same ∙ lookup-insert job.id k _ jobs ∙ rw hit)
        | inr miss ↦
            inl (same ∙ lookup-insert job.id k _ jobs ∙ rw miss, ((λ e. ground arith), others))
      ]
      | inr (j, there, at, now_at) ↦ inr (j, inr there, at, now_at)
    ]

-- The two branches of the method.
pub claim_cases :
    (now : ℕ) (limit : ℤ) (s : MemoryStore)
    → ((claimed_jobs now limit s ≡ []) × (claimed_store now limit s ≡ s))
      ⊎ ((claimed_jobs now limit s ≡ map (claimed_job now) (due_jobs now limit s))
          × (claimed_store now limit s
              ≡ record s { cleanup_jobs = claim_loop now (due_jobs now limit s) s.cleanup_jobs }))
unfolding claim_due_workspace_cleanup_jobs
claim_cases now (negsuc n) s = inl (refl, refl)
claim_cases now (pos n) s = ground arith

-- A claimed job is a due job of the map as the claim leaves it.
pub claimed_jobs-In :
    (now : ℕ) (limit : ℤ) (s : MemoryStore) (job : WorkspaceCleanupJob)
    → In job (claimed_jobs now limit s)
    → (old : WorkspaceCleanupJob) × In old (due_jobs now limit s) × (job ≡ claimed_job now old)
claimed_jobs-In now limit s job h = elim (claim_cases now limit s) [
  | inl (none_due, _) ↦ absurd (rw none_due at h)
  | inr (taken, _) ↦ In-map (claimed_job now) job _ (rw taken at h)
]

claim_loop-UniqueKeys :
    (now : ℕ) (due : List WorkspaceCleanupJob) (jobs : List (ℕ × WorkspaceCleanupJob))
    → UniqueKeys jobs
    → UniqueKeys (claim_loop now due jobs)
unfolding claim_loop
claim_loop-UniqueKeys now [] jobs u = u
claim_loop-UniqueKeys now (job ∷ due) jobs u =
    claim_loop-UniqueKeys now due _ (insert-UniqueKeys job.id (claimed_job now job) jobs u)

module _ (now : ℕ) (limit : ℤ) (s : MemoryStore) (v : JobsInv s) where
  -- A job that the claim takes stands in the map under its id, and is due.
  pub due_job_filed :
      (job : WorkspaceCleanupJob)
      → In job (due_jobs now limit s)
      → (lookup job.id s.cleanup_jobs ≡ some job) × DueAt now job
  due_job_filed job h =
      let (there, due) = due_jobs-In now limit s job h in
      let (k, at) = values-lookup job s.cleanup_jobs v.unique there in
      let e : job.id ≡ k = (v.filed k job at).0 in
      (ap (λ i. lookup i s.cleanup_jobs) e ∙ at, is_due-DueAt now job due)

  claim_loop-RevisesAt :
      (k : ℕ) → RevisesAt s.cleanup_jobs (claim_loop now (due_jobs now limit s) s.cleanup_jobs) k
  unfolding claimed_job
  claim_loop-RevisesAt k = elim (claim_loop_at now (due_jobs now limit s) s.cleanup_jobs k) [
    | inl (same, _) ↦ inl same
    | inr (job, there, at, after) ↦
        let (filed, due) = due_job_filed job there in
        inr (
          job,
          claimed_job now job,
          ap (λ i. lookup i s.cleanup_jobs) (sym at) ∙ filed,
          after,
          (refl, refl, ground arith),
        )
  ]

  -- A claim keeps the map and its index in step, and the attempts within their maximum.
  pub claim-JobsInv : JobsInv (claimed_store now limit s)
  claim-JobsInv = elim (claim_cases now limit s) [
    | inl (_, same) ↦ rw same v
    | inr (_, after) ↦
        rw after
          (revise-JobsInv s _ v claim_loop-RevisesAt (claim_loop-UniqueKeys now _ _ v.unique))
  ]

  -- A job that the claim takes stands claimed in the map that it leaves.
  due_job_claimed :
      (old : WorkspaceCleanupJob)
      → In old (due_jobs now limit s)
      → lookup old.id (claim_loop now (due_jobs now limit s) s.cleanup_jobs)
        ≡ some (claimed_job now old)
  due_job_claimed old h = elim (claim_loop_at now (due_jobs now limit s) s.cleanup_jobs old.id) [
    | inl (_, others) ↦ absurd (In-All _ (due_jobs now limit s) old others h refl)
    | inr (job, there, at, after) ↦
        let filed = ap (λ i. lookup i s.cleanup_jobs) (sym at) ∙ (due_job_filed job there).0 in
        let same : old ≡ job = cc (filed, (due_job_filed old h).0) in
        after ∙ ap (λ j. some (claimed_job now j)) (sym same)
  ]

-- In a store whose job maps agree (JobsInv), every job that a claim returns was due before it, with
-- attempts left, and is a running job with one more attempt, which stands so in the map.
pub claim_hands_out_due_jobs :
    (now : ℕ) (limit : ℤ) (s : MemoryStore) (job : WorkspaceCleanupJob)
    → JobsInv s
    → In job (claimed_jobs now limit s)
    → (old : WorkspaceCleanupJob) × (lookup job.id s.cleanup_jobs ≡ some old)
      × DueAt now old
      × (job.status ≡ running)
      × (job.attempt_count ≡ old.attempt_count + 1)
      × (job.updated_at ≡ now)
      × (lookup job.id (claimed_store now limit s).cleanup_jobs ≡ some job)
unfolding claimed_job
claim_hands_out_due_jobs now limit s job v h =
    let (old, there, e) = claimed_jobs-In now limit s job h in
    let (filed, due) = due_job_filed now limit s v old there in
    elim (claim_cases now limit s) [
      | inl (none_due, _) ↦ absurd (rw none_due at h)
      | inr (_, after) ↦
          let at = due_job_claimed now limit s v old there in
          let now_at : lookup job.id (claimed_store now limit s).cleanup_jobs ≡ some job =
            ap (λ w. lookup job.id w.cleanup_jobs) after
            ∙ ap (λ j. lookup j.id (claim_loop now (due_jobs now limit s) s.cleanup_jobs)) e
            ∙ at
            ∙ ap some (sym e) in
          (old, ground arith, due, ground arith, ground arith, ground arith, now_at)
    ]
