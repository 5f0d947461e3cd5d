-- ===== src/Api/Memory/Due.antt =====
-- RunWorkspaceCleanupDueJobs of practice_service.go over the store in memory: what becomes of the
-- jobs that a run claims.
use git_gym.Prelude.{ℕ, ◌≡◌, refl, ap, ◌∙◌, some, List, [], ◌∷◌, arith, All, All-In}
use git_gym.Prelude.Text.{ℤ, pos, negsuc}
use git_gym.Api.Domain.{WorkspaceCleanupJob}
use git_gym.Api.Errors.{Error, ok, state}
use git_gym.Api.Ports.{RunnerClient}
use git_gym.Api.Service.{PracticeService}
use git_gym.Api.Service.Cleanup.{
  run_with_runner, run_jobs, join_errors, limit_or, run_workspace_cleanup_due_jobs,
}
use git_gym.Api.Store.State.{MemoryStore}
use git_gym.Api.Store.Jobs.{claim_due_workspace_cleanup_jobs}
use git_gym.Api.Store.Claim.{claimed_jobs, claimed_store, claim_hands_out_due_jobs}
use git_gym.Api.Store.Invariant.{JobsInv}
use git_gym.Api.Memory.{World, memory_store, IsInMemory}
use git_gym.Api.Memory.Run.{IsStored, IsDone, Settling, run_jobs_settle}

claim_ok :
    (now : ℕ) (limit : ℤ) (s : MemoryStore)
    → claim_due_workspace_cleanup_jobs now limit s
      ≡ ok (claimed_jobs now limit s) (claimed_store now limit s)
unfolding claim_due_workspace_cleanup_jobs
claim_ok now (negsuc n) s = refl
claim_ok now (pos n) s = ground arith

state-join_errors : {W : Type 0} (errors : List Error) (w : W) → state (join_errors errors w) ≡ w
unfolding join_errors
state-join_errors [] w = refl
state-join_errors (e ∷ rest) w = refl

module _ {R Conn : Type 0} (s : PracticeService (World R) Conn)
    (runner : RunnerClient (World R) Conn) (m : IsInMemory s runner) (limit : ℤ) (w : World R)
    (v : JobsInv w.memory) where
  -- The time of the run, the jobs that it claims, and the world with them claimed.
  abbrev pub run_time : ℕ
  run_time = (s.now w).0

  abbrev pub run_claims : List WorkspaceCleanupJob
  run_claims = claimed_jobs run_time (limit_or 10 limit) w.memory

  abbrev pub claimed_world : World R
  claimed_world = record ((s.now w).1) {
    memory = claimed_store run_time (limit_or 10 limit) w.memory;
  }

  run_with_state :
      (errors : List Error) (w' : World R)
      → run_jobs (memory_store R) s runner run_time run_claims claimed_world ≡ ok errors w'
      → state (run_with_runner s (memory_store R) (some runner) limit w) ≡ w'
  unfolding run_with_runner
  run_with_state errors w' e =
      let kept = m.clock_keeps w in
      let claimed =
        ap (claim_due_workspace_cleanup_jobs run_time (limit_or 10 limit)) kept
        ∙ claim_ok run_time (limit_or 10 limit) w.memory in
      ground (arith, e, claimed, state-join_errors errors w')

  run_state :
      (errors : List Error) (w' : World R)
      → run_jobs (memory_store R) s runner run_time run_claims claimed_world ≡ ok errors w'
      → state (run_workspace_cleanup_due_jobs s limit w) ≡ w'
  unfolding run_workspace_cleanup_due_jobs
  run_state errors w' e =
      rw (m.store_is, run_workspace_cleanup_due_jobs)
        (ap (λ o. state (run_with_runner s (memory_store R) o limit w)) m.runner_is
          ∙ run_with_state errors w' e)

  claims-IsStored : All (IsStored s runner m run_time claimed_world) run_claims
  claims-IsStored = All-In run_claims λ job h.
      let (old, _, _, _, _, _, filed) =
        claim_hands_out_due_jobs run_time (limit_or 10 limit) w.memory job v h in
      (job, filed, refl)

  -- Over a store in memory whose job maps agree, with a clock and a runner that do not reach into
  -- it: a run asks the runner for each job that it claimed, in turn, and writes the status, the
  -- schedule, the error and the time of change of the row of the job, which has the attempts that
  -- the claim counted, and nothing else of the memory: succeeded where the runner has deleted the
  -- workspace or does not know it, and failed where it gives another error, due 1, 5 or 15 minutes
  -- after the time of the run for the first, the second and a later attempt, and at this time behind
  -- the fifth. Behind the run every job that it claimed is settled so.
  pub run_settles_claims :
      let after = state (run_workspace_cleanup_due_jobs s limit w) in
      All (IsDone s runner m run_time after) run_claims
      × Settling s runner m run_time run_claims claimed_world after
  run_settles_claims =
      let (errors, w', runs, done, steps, _) =
        run_jobs_settle s runner m run_time run_claims claimed_world claims-IsStored in
      rw (run_state errors w' runs) (done, steps)
