-- ===== src/Api/Store/Claim/Order.antt =====
-- ClaimDueWorkspaceCleanupJobs (practice_service.go): in which order jobs are handed out.
use git_gym.Prelude.{
  ℕ, zero, suc, refl, All-imp, ◌≤◌, ◌<◌, ◌≡◌, ◌∙◌, ◌⊎◌, inl, inr, true, false, List, [], ◌∷◌, map,
  arith, In, All, keep, length, length-take_le, length-map, map-In, keep-In,
}
use git_gym.Prelude.Map.{values}
use git_gym.Prelude.Sort.{sort, sort-In, IsSorted, sort-IsSorted, take-IsSorted, take_leaves_out}
use git_gym.Prelude.Text.{ℤ, pos, negsuc, pos_part}
use git_gym.Api.Domain.{WorkspaceCleanupJob, Status, running, pending, failed}
use git_gym.Api.Store.State.{MemoryStore}
use git_gym.Api.Store.Jobs.{
  is_due, due_jobs, claimed_job, claim_due_workspace_cleanup_jobs, is_before,
}
use git_gym.Api.Store.Claim.{claimed_jobs, claim_cases, DueAt}

not_before :
    (now : ℕ) (b : WorkspaceCleanupJob) (xs : List WorkspaceCleanupJob)
    → All (λ a. is_before b a ≡ false) xs
    → All (λ a. is_before b a ≡ false) (map (claimed_job now) xs)
unfolding is_before claimed_job
not_before now b [] h = tt
not_before now b (x ∷ xs) h = (h.0, not_before now b xs h.1)

IsSorted-claimed :
    (now : ℕ) (xs : List WorkspaceCleanupJob)
    → IsSorted is_before xs
    → IsSorted is_before (map (claimed_job now) xs)
unfolding is_before claimed_job
IsSorted-claimed now [] h = tt
IsSorted-claimed now (x ∷ xs) h = (shift xs h.0, IsSorted-claimed now xs h.1)
  where
    shift :
        (ys : List WorkspaceCleanupJob)
        → All (λ y. is_before y x ≡ false) ys
        → All (λ y. is_before y (claimed_job now x) ≡ false) (map (claimed_job now) ys)
    shift [] h = tt
    shift (y ∷ ys) h = (h.0, shift ys h.1)

before_asym : (a b : WorkspaceCleanupJob) → is_before a b ≡ true → is_before b a ≡ false
unfolding is_before
before_asym a b h = ground arith

before_step :
    (a b c : WorkspaceCleanupJob)
    → is_before a b ≡ false
    → is_before b c ≡ false
    → is_before a c ≡ false
unfolding is_before
before_step a b c h k = ground arith

due_jobs-IsSorted :
    (now : ℕ) (limit : ℤ) (s : MemoryStore) → IsSorted is_before (due_jobs now limit s)
unfolding due_jobs
due_jobs-IsSorted now limit s =
    take-IsSorted is_before (pos_part limit) _ (sort-IsSorted is_before before_asym before_step _)

claimed_limit :
    (now : ℕ) (limit : ℤ) (s : MemoryStore)
    → (length (claimed_jobs now limit s) ≤ pos_part limit)
      × IsSorted is_before (claimed_jobs now limit s)
unfolding due_jobs
claimed_limit now limit s = elim (claim_cases now limit s) [
  | inl (none_due, _) ↦ rw none_due (omega arith, tt)
  | inr (taken, _) ↦ rw taken (
    omega (
      arith,
      length-map (claimed_job now) (due_jobs now limit s),
      length-take_le (pos_part limit) (sort is_before (keep (is_due now) (values s.cleanup_jobs))),
    ),
    IsSorted-claimed now _ (due_jobs-IsSorted now limit s),
  )
]

claimed_positive :
    (now n : ℕ) (s : MemoryStore)
    → 0 < n
    → claimed_jobs now (pos n) s ≡ map (claimed_job now) (due_jobs now (pos n) s)
unfolding claim_due_workspace_cleanup_jobs
claimed_positive now n s h = ground arith

due_left_out :
    (now n : ℕ) (s : MemoryStore) (job : WorkspaceCleanupJob)
    → In job (values s.cleanup_jobs)
    → is_due now job ≡ true
    → In job (due_jobs now (pos n) s)
      ⊎ ((length (due_jobs now (pos n) s) ≡ n)
          × All (λ c. is_before job c ≡ false) (due_jobs now (pos n) s))
unfolding due_jobs
due_left_out now n s job there due =
    take_leaves_out is_before n job _ (sort-IsSorted is_before before_asym before_step _)
      (sort-In is_before job _ (keep-In (is_due now) job (values s.cleanup_jobs) there due))

claim_leaves_out :
    (now n : ℕ) (s : MemoryStore) (job : WorkspaceCleanupJob)
    → 0 < n
    → In job (values s.cleanup_jobs)
    → is_due now job ≡ true
    → In (claimed_job now job) (claimed_jobs now (pos n) s)
      ⊎ ((length (claimed_jobs now (pos n) s) ≡ n)
          × All (λ c. is_before job c ≡ false) (claimed_jobs now (pos n) s))
claim_leaves_out now n s job h there due =
    rw (claimed_positive now n s h) (elim (due_left_out now n s job there due) [
      | inl in_cut ↦ inl (map-In (claimed_job now) job _ in_cut)
      | inr (full, all) ↦
          inr
            (length-map (claimed_job now) (due_jobs now (pos n) s) ∙ full, not_before now job _ all)
    ])

-- The one is due before the other, or at the same time with an id that is not greater.
abbrev pub Comes : WorkspaceCleanupJob → WorkspaceCleanupJob → Type 0
Comes a b = (a.scheduled_at < b.scheduled_at) ⊎ ((a.scheduled_at ≡ b.scheduled_at) × (a.id ≤ b.id))

abbrev pub IsOrdered : List WorkspaceCleanupJob → Type 0
IsOrdered [] = Unit
IsOrdered (a ∷ rest) = All (Comes a) rest × IsOrdered rest

not_before-Comes : (a b : WorkspaceCleanupJob) → is_before b a ≡ false → Comes a b
unfolding is_before
not_before-Comes a b h = ground arith

IsSorted-IsOrdered : (xs : List WorkspaceCleanupJob) → IsSorted is_before xs → IsOrdered xs
IsSorted-IsOrdered [] h = tt
IsSorted-IsOrdered (a ∷ rest) h =
    (All-imp _ _ rest (λ b. not_before-Comes a b) h.0, IsSorted-IsOrdered rest h.1)

due_is :
    (st : Status) (now : ℕ) (job : WorkspaceCleanupJob)
    → job.status ≡ st
    → DueAt now job
    → is_due now job ≡ true
unfolding is_due
due_is pending now job e h = ground (arith, h)
due_is failed now job e h = ground (arith, h)
due_is running now job e h = ground (arith, h)
due_is _ now job e h = ground (arith, h)

-- A due job is handed out, or the claim is full and nothing that it hands out comes behind the job.
abbrev pub IsServed : List WorkspaceCleanupJob → ℕ → WorkspaceCleanupJob → Type 0
IsServed jobs limit job =
    ((taken : WorkspaceCleanupJob) × In taken jobs
      × (taken.id ≡ job.id)
      × (taken.scheduled_at ≡ job.scheduled_at))
    ⊎ ((length jobs ≡ limit) × All (λ c. Comes c job) jobs)

taken_or_full :
    (now n : ℕ) (s : MemoryStore) (job : WorkspaceCleanupJob)
    → In job (values s.cleanup_jobs)
    → is_due now job ≡ true
    → IsServed (claimed_jobs now (pos n) s) n job
unfolding claimed_job claim_due_workspace_cleanup_jobs
taken_or_full now zero s job there due = inr (refl, tt)
taken_or_full now (suc n) s job there due =
    elim (claim_leaves_out now (suc n) s job (omega arith) there due) [
      | inl taken ↦ inl (claimed_job now job, taken, refl, refl)
      | inr (full, all) ↦
          inr
            (full, All-imp _ _ (claimed_jobs now (pos (suc n)) s) (λ c. not_before-Comes c job) all)
    ]

taken_or_full_any :
    (now : ℕ) (limit : ℤ) (s : MemoryStore) (job : WorkspaceCleanupJob)
    → In job (values s.cleanup_jobs)
    → is_due now job ≡ true
    → IsServed (claimed_jobs now limit s) (pos_part limit) job
unfolding claim_due_workspace_cleanup_jobs
taken_or_full_any now (negsuc n) s job there due = inr (refl, tt)
taken_or_full_any now (pos n) s job there due = taken_or_full now n s job there due

-- A claim returns at most `limit` jobs, none where the limit is not positive, ordered by schedule
-- and, where the schedules agree, by id; each due job of the map is among them, or there are as many
-- as the limit and each of them comes before that job in this order.
pub claim_order :
    (now : ℕ) (limit : ℤ) (s : MemoryStore)
    → let jobs = claimed_jobs now limit s in
      (length jobs ≤ pos_part limit)
      × IsOrdered jobs
      × ((job : WorkspaceCleanupJob)
          → In job (values s.cleanup_jobs)
          → DueAt now job
          → IsServed jobs (pos_part limit) job)
claim_order now limit s =
    let (few, sorted) = claimed_limit now limit s in
    (
      few,
      IsSorted-IsOrdered _ sorted,
      λ job there due. taken_or_full_any now limit s job there (due_is job.status now job refl due),
    )
