-- ===== src/Api/Examples.antt =====
-- The theorems of the API service at concrete inputs: two cleanup jobs, a job whose attempts are used
-- up, and a service over the store in memory with a runner that cannot be reached.
use git_gym.Api.Store.Lifecycle.Requeue.{requeue_revives}
use git_gym.Api.Store.Jobs.{requeue_workspace_cleanup_job, is_exhausted}
use git_gym.Prelude.{true}
use git_gym.Api.Domain.{failed}
use git_gym.Prelude.{
  false, ℕ, ◌+◌, ◌≤◌, ◌≡◌, ◌≢◌, refl, ◌⊎◌, inl, none, some, List, [], ◌∷◌, arith, In, All, length,
}
use git_gym.Prelude.Map.{lookup, insert, values}
use git_gym.Prelude.Sort.{sort}
use git_gym.Prelude.Text.{codes, pos}
use git_gym.Api.Domain.{PracticeSession, WorkspaceCleanupJob, active, expired, orphaned, running}
use git_gym.Api.Errors.{ok, err, state, sentinel, client_not_configured}
use git_gym.Api.Ports.{Store, RunnerClient, PracticeTemplate, PracticeScenario, Workspace}
use git_gym.Api.Catalog.{new_fallback_practice_catalog}
use git_gym.Api.Store.State.{MemoryStore, new_memory_store}
use git_gym.Api.Store.Sessions
use git_gym.Api.Store.Sessions.{is_stale, end_session, expire_practice_sessions}
use git_gym.Api.Store.Jobs.{
  upsert_workspace_cleanup_job, mark_workspace_cleanup_job_failed, is_due,
  claim_due_workspace_cleanup_jobs,
}
use git_gym.Api.Store.Invariant.{JobsInv}
use git_gym.Api.Store.Claim.{claimed_jobs, claimed_store, DueAt, claim_hands_out_due_jobs}
use git_gym.Api.Store.Claim.Order.{claim_order, IsOrdered, IsServed}
use git_gym.Api.Store.Lifecycle.{JobCall, call_store, upsert, claim, mark_failed, call_all}
use git_gym.Api.Store.Lifecycle.History.{call_all-JobsInv}
use git_gym.Api.Store.Lifecycle.Lease.{claim_exclusive}
use git_gym.Api.Store.Lifecycle.Stranded.{stranded_forever}
use git_gym.Api.Store.Lifecycle.Retries.{handouts, handouts_bounded}
use git_gym.Api.Store.Expire.{EndedOf, SweptAt, expire_lem}
use git_gym.Api.Service.{
  PracticeService, pending_job, new_practice_service, ensure_session_available,
}
use git_gym.Api.Service.Access.{
  CreatePracticeSessionInput, create_practice_session, practice_session_by_id,
}
use git_gym.Api.Service.Access.Owner.{IsAvailable, practice_session_by_id_ok}
use git_gym.Api.Service.Access.Create.{IsNewSession, create_practice_session_ok}
use git_gym.Api.Service.Cleanup.{run_workspace_cleanup_due_jobs}
use git_gym.Api.Memory.{World, memory_store, IsInMemory}
use git_gym.Api.Memory.Run.{IsDone, Settling}
use git_gym.Api.Memory.Due.{run_settles_claims, run_time, run_claims, claimed_world}

abbrev two_calls : List JobCall
unfolding pending_job
two_calls =
    upsert 0 (pending_job 7 (codes "ws-a") expired 5)
    ∷ upsert 0 (pending_job 8 (codes "ws-b") orphaned 6)
    ∷ []

abbrev two_jobs : MemoryStore
two_jobs = call_all two_calls new_memory_store

two_jobs-JobsInv : JobsInv two_jobs
unfolding two_calls
two_jobs-JobsInv = call_all-JobsInv two_calls (omega arith, (omega arith, tt)) (omega arith)

abbrev first_claimed : WorkspaceCleanupJob
unfolding pending_job
first_claimed = record (pending_job 7 (codes "ws-a") expired 5) {
  id = 1;
  status = running;
  attempt_count = 1;
  updated_at = 10;
}

abbrev second_claimed : WorkspaceCleanupJob
unfolding pending_job
second_claimed = record (pending_job 8 (codes "ws-b") orphaned 6) {
  id = 2;
  status = running;
  attempt_count = 1;
  updated_at = 11;
}

first-In : In first_claimed (claimed_jobs 10 (pos 1) two_jobs)
unfolding call_all call_store claim_due_workspace_cleanup_jobs new_memory_store lookup insert sort
    upsert_workspace_cleanup_job two_calls
first-In = inl refl

-- Another session ends between the two claims.
abbrev between : List JobCall
unfolding pending_job
between = upsert 10 (pending_job 9 (codes "ws-c") expired 10) ∷ []

claim_exclusive_example : second_claimed.id ≢ first_claimed.id
unfolding call_all call_store claim_due_workspace_cleanup_jobs new_memory_store lookup insert sort
    upsert_workspace_cleanup_job two_calls between
claim_exclusive_example =
    claim_exclusive 10 11 (pos 1) (pos 1) two_jobs between first_claimed second_claimed
      two_jobs-JobsInv first-In (omega arith, tt) ((λ e. ground arith), tt) (omega arith)
      (omega arith) (inl refl)

claim_hands_out_due_jobs_example :
    (old : WorkspaceCleanupJob) × (lookup 1 two_jobs.cleanup_jobs ≡ some old)
    × DueAt 10 old
    × (first_claimed.status ≡ running)
    × (first_claimed.attempt_count ≡ old.attempt_count + 1)
    × (first_claimed.updated_at ≡ 10)
    × (lookup 1 (claimed_store 10 (pos 1) two_jobs).cleanup_jobs ≡ some first_claimed)
unfolding first_claimed
claim_hands_out_due_jobs_example =
    claim_hands_out_due_jobs 10 (pos 1) two_jobs first_claimed two_jobs-JobsInv first-In

claim_order_example :
    (length (claimed_jobs 10 (pos 1) two_jobs) ≤ 1)
    × IsOrdered (claimed_jobs 10 (pos 1) two_jobs)
    × ((job : WorkspaceCleanupJob)
        → In job (values two_jobs.cleanup_jobs)
        → DueAt 10 job
        → IsServed (claimed_jobs 10 (pos 1) two_jobs) 1 job)
claim_order_example = claim_order 10 (pos 1) two_jobs

abbrev second_job : WorkspaceCleanupJob
unfolding pending_job
second_job = record (pending_job 8 (codes "ws-b") orphaned 6) { id = 2 }

call_all-JobsInv_example : JobsInv two_jobs
unfolding two_calls
call_all-JobsInv_example = call_all-JobsInv two_calls (omega arith, (omega arith, tt)) (omega arith)

-- Five runs whose delete fails; the last one cannot be marked, so the job is recovered by an upsert.
abbrev failing_calls : List JobCall
unfolding pending_job
failing_calls =
    upsert 0 (pending_job 7 (codes "ws-a") expired 5)
    ∷ claim 10 (pos 1)
    ∷ mark_failed 11 1 20 (codes "x")
    ∷ claim 20 (pos 1)
    ∷ mark_failed 21 1 30 (codes "x")
    ∷ claim 30 (pos 1)
    ∷ mark_failed 31 1 40 (codes "x")
    ∷ claim 40 (pos 1)
    ∷ mark_failed 41 1 50 (codes "x")
    ∷ claim 50 (pos 1)
    ∷ upsert 51 (pending_job 7 (codes "ws-a") expired 50)
    ∷ []

abbrev failed_store : MemoryStore
failed_store = call_all failing_calls new_memory_store

failed_store-JobsInv : JobsInv failed_store
unfolding failing_calls
failed_store-JobsInv =
    call_all-JobsInv failing_calls
      (omega arith, (tt, (tt, (tt, (tt, (tt, (tt, (tt, (tt, (tt, (omega arith, tt)))))))))))
      (omega arith)

abbrev later_calls : List JobCall
unfolding pending_job
later_calls = upsert 55 (pending_job 8 (codes "ws-b") orphaned 56) ∷ []

abbrev other_claimed : WorkspaceCleanupJob
unfolding pending_job
other_claimed = record (pending_job 8 (codes "ws-b") orphaned 56) {
  id = 2;
  status = running;
  attempt_count = 1;
  created_at = 55;
  updated_at = 60;
}

stranded_forever_example : other_claimed.id ≢ 1
unfolding call_all call_store claim_due_workspace_cleanup_jobs new_memory_store lookup insert sort
    upsert_workspace_cleanup_job mark_workspace_cleanup_job_failed later_calls failing_calls
stranded_forever_example =
    stranded_forever later_calls failed_store 1 60 (pos 5) other_claimed failed_store-JobsInv
      (omega arith, tt) (refl, tt) (omega arith) (_, refl, refl, omega arith) (inl refl)

-- A job that was tried once, and the calls of two more tries.
abbrev tried_calls : List JobCall
unfolding pending_job
tried_calls = upsert 0 (pending_job 7 (codes "ws-a") expired 5) ∷ claim 10 (pos 1) ∷ []

abbrev tried_store : MemoryStore
tried_store = call_all tried_calls new_memory_store

tried_store-JobsInv : JobsInv tried_store
unfolding tried_calls
tried_store-JobsInv = call_all-JobsInv tried_calls (omega arith, (tt, tt)) (omega arith)

abbrev retry_calls : List JobCall
retry_calls =
    mark_failed 11 1 20 (codes "x")
    ∷ claim 20 (pos 1)
    ∷ mark_failed 21 1 30 (codes "x")
    ∷ claim 30 (pos 1)
    ∷ []

handouts_bounded_example : 1 + handouts 1 retry_calls tried_store ≤ 5
unfolding call_all call_store claim_due_workspace_cleanup_jobs new_memory_store lookup insert sort
    upsert_workspace_cleanup_job mark_workspace_cleanup_job_failed tried_calls
handouts_bounded_example =
    handouts_bounded retry_calls tried_store 1 _ tried_store-JobsInv (tt, (tt, (tt, (tt, tt))))
      (tt, (tt, (tt, (tt, tt)))) (omega arith) refl

-- The rest of the world is the number of the runner's workspaces.
abbrev runner : RunnerClient (World ℕ) (Unit {0})
runner = record {
  create_workspace = λ key w.
      ok (record { id = codes "ws-1"; path = codes "/ws-1" }) (record w { rest = w.rest + 1 });
  reset_workspace = λ id w. err (sentinel client_not_configured) w;
  get_repo_state = λ id w. err (sentinel client_not_configured) w;
  connect_terminal = λ id w. err (sentinel client_not_configured) w;
  delete_workspace = λ id reason after w. err (sentinel client_not_configured) w;
}

abbrev service_over : Store (World ℕ) → PracticeService (World ℕ) (Unit {0})
unfolding new_practice_service
service_over store = new_practice_service (some store) (some runner) (λ w. (10, w)) (λ e. codes "x")

abbrev service : PracticeService (World ℕ) (Unit {0})
unfolding service_over
service = service_over (memory_store ℕ)

service-IsInMemory : IsInMemory service runner
unfolding service
service-IsInMemory = record {
  store_is = refl;
  runner_is = refl;
  clock_keeps = λ w. refl;
  delete_keeps = λ id reason after w. refl;
  reset_keeps = λ id w. refl;
}

abbrev world_of : MemoryStore → World ℕ
world_of memory = record { memory = memory; wall = 11; rest = 0 }

run_settles_claims_example :
    let after = state (run_workspace_cleanup_due_jobs service (pos 5) (world_of two_jobs)) in
    let now =
      run_time service runner service-IsInMemory (pos 5) (world_of two_jobs) two_jobs-JobsInv in
    let claims =
      run_claims service runner service-IsInMemory (pos 5) (world_of two_jobs) two_jobs-JobsInv in
    All (IsDone service runner service-IsInMemory now after) claims
    × Settling service runner service-IsInMemory now claims
        (claimed_world service runner service-IsInMemory
          (pos 5)
          (world_of two_jobs)
          two_jobs-JobsInv)
        after
run_settles_claims_example =
    run_settles_claims service runner service-IsInMemory (pos 5) (world_of two_jobs)
      two_jobs-JobsInv

-- The session that user 3 gets.
abbrev stored_session : PracticeSession
stored_session = record {
  id = 1;
  user_id = 3;
  scenario_id = 1;
  template_id = 1;
  runner_ref = codes "ws-1";
  workspace_path_ref = codes "/ws-1";
  status = active;
  started_at = 10;
  ended_at = none;
  expires_at = 7_200_000_000_010;
  last_activity_at = 10;
}

abbrev request : CreatePracticeSessionInput
request = record { user_id = 3; scenario_id = 1; template_id = 0 }

abbrev created_world : World ℕ
created_world = record {
  memory = record new_memory_store {
    next_id = 2;
    sessions = (1, stored_session) ∷ [];
    current_by_user = (3, 1) ∷ [];
  };
  wall = 11;
  rest = 1;
}

create_practice_session_ok_example :
    (scenario : PracticeScenario) × (template : PracticeTemplate) × (workspace : Workspace)
    × (fresh : PracticeSession) × (w₁ : World ℕ) × (w₂ : World ℕ) × (w₃ : World ℕ)
    × ((new_fallback_practice_catalog (World ℕ)).scenario_by_id 1 (world_of new_memory_store)
        ≡ ok scenario w₁)
    × ((new_fallback_practice_catalog (World ℕ)).template_by_id scenario.template_id w₁
        ≡ ok template w₂)
    × ((request.template_id ≡ 0) ⊎ (request.template_id ≡ template.id))
    × (runner.create_workspace template.key w₂ ≡ ok workspace w₃)
    × IsNewSession 3 scenario template workspace (service.now w₃).0 fresh
    × ((memory_store ℕ).create_practice_session fresh (service.now w₃).1
        ≡ ok stored_session created_world)
unfolding service create_practice_session Sessions.create_practice_session new_memory_store insert
create_practice_session_ok_example =
    create_practice_session_ok service (memory_store ℕ) runner
      (new_fallback_practice_catalog (World ℕ)) refl refl refl request stored_session
      (world_of new_memory_store) created_world refl

practice_session_by_id_ok_example :
    (store : Store (World ℕ)) × (read : World ℕ) × (service.store ≡ some store)
    × (store.practice_session_by_id 1 created_world ≡ ok stored_session read)
    × (◌≢◌ {A = ℕ} 3 0)
    × (◌≢◌ {A = ℕ} 1 0)
    × (stored_session.user_id ≡ 3)
    × IsAvailable service stored_session read created_world
unfolding service practice_session_by_id Sessions.practice_session_by_id lookup
    ensure_session_available new_practice_service
practice_session_by_id_ok_example =
    practice_session_by_id_ok service 3 1 stored_session created_world created_world refl

expire_lem_example :
    (t : MemoryStore) × (ended : List PracticeSession) × (expire_practice_sessions 7_200_000_000_010
        20 created_world.memory
      ≡ ok ended t)
    × EndedOf 7_200_000_000_010 20 (values created_world.memory.sessions) ended
    × ((k : ℕ)
        → SweptAt 7_200_000_000_010 20
            (lookup k created_world.memory.sessions)
            (lookup k t.sessions))
    × (t ≡ record created_world.memory { sessions = t.sessions })
expire_lem_example = expire_lem 7_200_000_000_010 20 created_world.memory

-- A job that failed five times.
abbrev exhausted_job : WorkspaceCleanupJob
unfolding pending_job
exhausted_job = record (pending_job 7 (codes "ws-a") expired 50) {
  id = 1;
  status = failed;
  attempt_count = 5;
}

abbrev exhausted_store : MemoryStore
unfolding new_memory_store exhausted_job
exhausted_store = record new_memory_store {
  next_cleanup_job_id = 2;
  cleanup_jobs = (1, exhausted_job) ∷ [];
  cleanup_job_by_session = (7, 1) ∷ [];
}

requeue_revives_example :
    ((now : ℕ) → is_due now exhausted_job ≡ false)
    × ((fresh : WorkspaceCleanupJob) × (lookup 1
            (state (requeue_workspace_cleanup_job 60 1 60 exhausted_store)).cleanup_jobs
          ≡ some fresh)
        × (fresh.id ≡ exhausted_job.id)
        × (fresh.attempt_count ≡ 0)
        × ((now : ℕ) → 60 ≤ now → is_due now fresh ≡ true))
unfolding exhausted_store exhausted_job lookup is_exhausted
requeue_revives_example = requeue_revives 60 60 1 exhausted_store exhausted_job refl refl
