-- ===== src/Api/Memory/Run.antt =====
-- RunWorkspaceCleanupDueJobs of practice_service.go over the store in memory, from claim to mark.
use git_gym.Prelude.{
  ℕ, ◌≡◌, refl, sym, ap, ◌∙◌, inl, inr, some, List, [], ◌∷◌, ◌++◌, arith, ◌==◌, Bool-cases, ==_iff,
  All, All-imp,
}
use mathlib.Core.Path.{subst}
use git_gym.Prelude.Map.{lookup, insert, lookup-insert}
use git_gym.Prelude.Text.{Text}
use git_gym.Api.Domain.{WorkspaceCleanupJob, succeeded, failed}
use git_gym.Api.Errors.{wrapped, Error, Out, ok, err, state, is, workspace_not_found}
use git_gym.Api.Monad.{on_outcome}
use git_gym.Api.Ports.{RunnerClient}
use git_gym.Api.Service.{PracticeService}
use git_gym.Api.Store.Jobs.{workspace_cleanup_attempts_exhausted}
use git_gym.Api.Service.Cleanup.{run_job, run_jobs, retry_at, next_workspace_cleanup_retry_at}
use git_gym.Api.Store.Jobs
use git_gym.Api.Service.Cleanup
use git_gym.Api.Memory.Settled.{
  IsSettled, Rewrites, IsGone, IsKept, Fits, Fits-IsSettled, retry_at-IsRetryTime,
}
use git_gym.Api.Memory.{World, memory_store, IsInMemory}

module _ {R Conn : Type 0} (s : PracticeService (World R) Conn)
    (runner : RunnerClient (World R) Conn) (m : IsInMemory s runner) (now : ℕ) where
  abbrev jobs_of : World R → List (ℕ × WorkspaceCleanupJob)
  jobs_of w = w.memory.cleanup_jobs

  -- The world with the row of the job written over.
  abbrev written : World R → WorkspaceCleanupJob → WorkspaceCleanupJob → World R
  written w job after = record w {
    memory = record (w.memory) { cleanup_jobs = insert job.id after (jobs_of w) };
  }

  abbrev Settles :
      Out (World R) (Unit {0})
      → World R
      → World R
      → WorkspaceCleanupJob
      → WorkspaceCleanupJob
      → Type 0
  Settles o w w' job stored =
      (after : WorkspaceCleanupJob) × (jobs_of w' ≡ insert job.id after (jobs_of w))
      × Fits now o after
      × (after.attempt_count ≡ stored.attempt_count)
      × (w' ≡ written (state o) job after)
      × Rewrites stored after

  -- The runner is asked for each job in turn; its answer decides what is written to the row of the
  -- job, and nothing else of the memory changes.
  abbrev pub Settling : List WorkspaceCleanupJob → World R → World R → Type 0
  Settling [] w w' = w' ≡ w
  Settling (job ∷ rest) w w' =
      let o = runner.delete_workspace job.workspace_id job.reason 0 w in
      (stored : WorkspaceCleanupJob) × (after : WorkspaceCleanupJob) × (lookup job.id (jobs_of w)
        ≡ some stored)
      × Fits now o after
      × Rewrites stored after
      × (after.attempt_count ≡ job.attempt_count)
      × Settling rest
          (record (state o) {
            memory = record (w.memory) { cleanup_jobs = insert job.id after (jobs_of w) };
          })
          w'

  succeeded_lem :
      (o : Out (World R) (Unit {0})) (job stored : WorkspaceCleanupJob) (w : World R)
      → state o ≡ w
      → IsGone o
      → lookup job.id (jobs_of w) ≡ some stored
      → (errors : List Error) × (w' : World R) × (Cleanup.mark_workspace_cleanup_job_succeeded
            (memory_store R)
            job
            now
            w
          ≡ ok errors w')
        × Settles o w w' job stored
  unfolding Cleanup.mark_workspace_cleanup_job_succeeded Jobs.mark_workspace_cleanup_job_succeeded
  succeeded_lem o job stored w at gone e =
      let done = record stored { status = succeeded; last_error = []; updated_at = w.wall } in
      let memory' = record (w.memory) { cleanup_jobs = insert job.id done (jobs_of w) } in
      (
        [],
        record w { memory = memory' },
        ground arith,
        (done, refl, inl (gone, refl), refl, ap (λ u. written u job done) (sym at), refl),
      )

  failed_lem :
      (o : Out (World R) (Unit {0})) (job stored : WorkspaceCleanupJob) (message : Text)
      (w : World R)
      → state o ≡ w
      → IsKept o
      → lookup job.id (jobs_of w) ≡ some stored
      → stored.attempt_count ≡ job.attempt_count
      → (errors : List Error) × (w' : World R) × (Cleanup.mark_workspace_cleanup_job_failed
            (memory_store R)
            job
            (retry_at now job)
            message
            w
          ≡ ok errors w')
        × Settles o w w' job stored
  unfolding Cleanup.mark_workspace_cleanup_job_failed Jobs.mark_workspace_cleanup_job_failed
      retry_at
  failed_lem o job stored message w at kept e a =
      let done = record stored {
        status = failed;
        scheduled_at = retry_at now job;
        last_error = message;
        updated_at = w.wall;
      } in
      let memory' = record (w.memory) { cleanup_jobs = insert job.id done (jobs_of w) } in
      (
        [],
        record w { memory = memory' },
        ground arith,
        (
          done,
          refl,
          inr (kept, refl, retry_at-IsRetryTime now stored.attempt_count job a),
          refl,
          ap (λ u. written u job done) (sym at),
          refl,
        ),
      )

  abbrev RunsTo :
      Out (World R) (Unit {0})
      → World R
      → WorkspaceCleanupJob
      → WorkspaceCleanupJob
      → Out (World R) (List Error)
      → Type 0
  RunsTo answer w₁ job stored o =
      (errors : List Error) × (w' : World R) × (o ≡ ok errors w') × Settles answer w₁ w' job stored

  -- What is done once the runner has answered.
  answered :
      (o : Out (World R) (Unit {0})) (job stored : WorkspaceCleanupJob) (w : World R)
      → lookup job.id (jobs_of (state o)) ≡ some stored
      → stored.attempt_count ≡ job.attempt_count
      → RunsTo o (state o) job stored (
          on_outcome
            (λ _. o)
            (Cleanup.delete_failed (memory_store R) s runner now job)
            (λ _. Cleanup.mark_workspace_cleanup_job_succeeded (memory_store R) job now)
            w)
  answered (ok u w₁) job stored w e a = succeeded_lem (ok u w₁) job stored w₁ refl tt e
  answered (err x w₁) job stored w e a =
      unfold Cleanup.delete_failed in
      elim (Bool-cases (is x workspace_not_found)) [
        | inl gone ↦
            let (errors, w', runs, settles) = succeeded_lem (err x w₁) job stored w₁ refl gone e in
            (errors, w', ground (arith, gone, runs), settles)
        | inr other ↦
            let (errors, w', runs, settles) =
              failed_lem (err x w₁) job stored (s.describe x) w₁ refl other e a in
            (wrapped x ∷ errors, w', ground (arith, other, runs), settles)
      ]

  run_job_lem :
      (job stored : WorkspaceCleanupJob) (w : World R)
      → lookup job.id (jobs_of w) ≡ some stored
      → stored.attempt_count ≡ job.attempt_count
      → RunsTo
          (runner.delete_workspace job.workspace_id job.reason 0 w)
          w
          job
          stored
          (run_job (memory_store R) s runner now job w)
  unfolding run_job
  run_job_lem job stored w e a =
      let o = runner.delete_workspace job.workspace_id job.reason 0 w in
      let kept : jobs_of (state o) ≡ jobs_of w =
        ap (λ x. x.cleanup_jobs) (m.delete_keeps job.workspace_id job.reason 0 w) in
      let (errors, w', runs, settles) = answered o job stored w (ap (lookup job.id) kept ∙ e) a in
      let (after, wrote, settled, count, world, row) = settles in
      (errors, w', runs, (after, wrote ∙ ap (insert job.id after) kept, settled, count, world, row))

  -- The job stands in the store with the attempts of the claim; it is settled there.
  abbrev pub IsStored : World R → WorkspaceCleanupJob → Type 0
  IsStored w job =
      (stored : WorkspaceCleanupJob) × (lookup job.id (jobs_of w) ≡ some stored)
      × (stored.attempt_count ≡ job.attempt_count)

  abbrev pub IsDone : World R → WorkspaceCleanupJob → Type 0
  IsDone w job =
      (stored : WorkspaceCleanupJob) × (lookup job.id (jobs_of w) ≡ some stored)
      × (stored.attempt_count ≡ job.attempt_count)
      × IsSettled now stored

  IsStored-after :
      (o : Out (World R) (Unit {0})) (w w' : World R) (job stored other : WorkspaceCleanupJob)
      → lookup job.id (jobs_of w) ≡ some stored
      → Settles o w w' job stored
      → IsStored w other
      → IsStored w' other
  IsStored-after o w w' job stored other e (after, wrote, settled, count, world, row)
        (found, at, attempts) =
      elim (Bool-cases (job.id == other.id)) [
        | inl hit ↦ (
          after,
          ap (lookup other.id) wrote ∙ lookup-insert job.id other.id after (jobs_of w) ∙ rw hit,
          ground (arith, ap (λ i. lookup i (jobs_of w)) ((==_iff job.id other.id).0 hit)),
        )
        | inr miss ↦ (
          found,
          ap (lookup other.id) wrote ∙ lookup-insert job.id other.id after (jobs_of w) ∙ rw miss at,
          attempts,
        )
      ]

  IsDone-after :
      (o : Out (World R) (Unit {0})) (w w' : World R) (job stored other : WorkspaceCleanupJob)
      → lookup job.id (jobs_of w) ≡ some stored
      → Settles o w w' job stored
      → IsDone w other
      → IsDone w' other
  IsDone-after o w w' job stored other e (after, wrote, settled, count, world, row)
        (found, at, attempts, done) =
      elim (Bool-cases (job.id == other.id)) [
        | inl hit ↦ (
          after,
          ap (lookup other.id) wrote ∙ lookup-insert job.id other.id after (jobs_of w) ∙ rw hit,
          ground (arith, ap (λ i. lookup i (jobs_of w)) ((==_iff job.id other.id).0 hit)),
          Fits-IsSettled now o after settled,
        )
        | inr miss ↦ (
          found,
          ap (lookup other.id) wrote ∙ lookup-insert job.id other.id after (jobs_of w) ∙ rw miss at,
          attempts,
          done,
        )
      ]

  run_jobs_cons :
      (job : WorkspaceCleanupJob) (rest : List WorkspaceCleanupJob) (errors more : List Error)
      (w w₁ w₂ : World R)
      → run_job (memory_store R) s runner now job w ≡ ok errors w₁
      → run_jobs (memory_store R) s runner now rest w₁ ≡ ok more w₂
      → run_jobs (memory_store R) s runner now (job ∷ rest) w ≡ ok (errors ++ more) w₂
  unfolding run_jobs
  run_jobs_cons job rest errors more w w₁ w₂ e f = ground arith

  -- The loop settles every job that it is given, and leaves what is settled so.
  pub run_jobs_settle :
      (jobs : List WorkspaceCleanupJob) (w : World R)
      → All (IsStored w) jobs
      → (errors : List Error) × (w' : World R) × (run_jobs (memory_store R) s runner now jobs w
          ≡ ok errors w')
        × All (IsDone w') jobs
        × Settling jobs w w'
        × ((other : WorkspaceCleanupJob) → IsDone w other → IsDone w' other)
  unfolding run_jobs
  run_jobs_settle [] w h = ([], w, refl, tt, refl, λ other d. d)
  run_jobs_settle (job ∷ rest) w ((stored, e, a), h) =
      let (errors, w₁, runs, settles) = run_job_lem job stored w e a in
      let o = runner.delete_workspace job.workspace_id job.reason 0 w in
      let kept : (state o).memory ≡ w.memory = m.delete_keeps job.workspace_id job.reason 0 w in
      let (more, w₂, runs_on, done, steps, keeps) =
        run_jobs_settle rest w₁
          (All-imp _ _ rest (λ other. IsStored-after o w w₁ job stored other e settles) h) in
      let (after, wrote, settled, count, world, row) = settles in
      let left =
        ap
          (λ u. record (state o) {
            memory = record u { cleanup_jobs = insert job.id after (u.cleanup_jobs) };
          })
          kept in
      (
        errors ++ more,
        w₂,
        run_jobs_cons job rest errors more w w₁ w₂ runs runs_on,
        (
          keeps job (
            after,
            ap (lookup job.id) wrote ∙ lookup-insert job.id job.id after (jobs_of w) ∙ ground arith,
            count ∙ a,
            Fits-IsSettled now o after settled,
          ),
          done,
        ),
        (
          stored,
          after,
          e,
          settled,
          row,
          count ∙ a,
          subst (λ u. Settling rest u w₂) (world ∙ left) steps,
        ),
        λ other d. keeps other (IsDone-after o w w₁ job stored other e settles d),
      )
