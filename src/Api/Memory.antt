-- ===== src/Api/Memory.antt =====
-- practiceService of practice_service.go over its InMemoryPracticeSessionStore. The world is the
-- store's fields, the wall clock that the store reads by `time.Now()`, and all that the runner and
-- the rest of the machine keep.
pub mod Run
pub mod Settled
pub mod Due
use git_gym.Prelude.{ℕ, ◌≡◌, refl, some, List}
use git_gym.Prelude.Text.{Text, ℤ}
use git_gym.Api.Domain.{PracticeSession, WorkspaceCleanupJob, Status}
use git_gym.Api.Errors.{Out, ok, err, state}
use git_gym.Api.Monad.{M}
use git_gym.Api.Ports.{Store, RunnerClient}
use git_gym.Api.Service.{PracticeService}
use git_gym.Api.Store.State.{MemoryStore}
use git_gym.Api.Store.Sessions
use git_gym.Api.Store.Jobs

pub record World (R : Type 0) : Type 0 where
  pub memory : MemoryStore
  pub wall : ℕ
  pub rest : R

module _ {R : Type 0} where
  -- A method of the store, which sees nothing but the store.
  abbrev pub in_memory : {A : Type 0} → (MemoryStore → Out MemoryStore A) → M (World R) A
  in_memory method w = elim (method w.memory) [
    | ok a m ↦ ok a (record w { memory = m })
    | err e m ↦ err e (record w { memory = m })
  ]

abbrev pub memory_store : (R : Type 0) → Store (World R)
memory_store R = record {
  create_practice_session = λ session. in_memory (Sessions.create_practice_session session);
  current_practice_session = λ user_id. in_memory (Sessions.current_practice_session user_id);
  practice_session_by_id = λ id. in_memory (Sessions.practice_session_by_id id);
  update_practice_session = λ session. in_memory (Sessions.update_practice_session session);
  expire_practice_sessions =
      λ before ended_at. in_memory (Sessions.expire_practice_sessions before ended_at);
  upsert_workspace_cleanup_job =
      λ job w. in_memory (Jobs.upsert_workspace_cleanup_job w.wall job) w;
  claim_due_workspace_cleanup_jobs =
      λ now limit. in_memory (Jobs.claim_due_workspace_cleanup_jobs now limit);
  mark_workspace_cleanup_job_succeeded =
      λ id w. in_memory (Jobs.mark_workspace_cleanup_job_succeeded w.wall id) w;
  mark_workspace_cleanup_job_failed =
      λ id at message w. in_memory (Jobs.mark_workspace_cleanup_job_failed w.wall id at message) w;
  workspace_cleanup_job_by_id = λ id. in_memory (Jobs.workspace_cleanup_job_by_id id);
  requeue_workspace_cleanup_job =
      λ id at w. in_memory (Jobs.requeue_workspace_cleanup_job w.wall id at) w;
  list_practice_sessions_missing_workspace_cleanup_job =
      λ limit. in_memory (Sessions.list_practice_sessions_missing_workspace_cleanup_job limit);
  list_exhausted_workspace_cleanup_jobs =
      λ limit. in_memory (Jobs.list_exhausted_workspace_cleanup_jobs limit);
}

-- The service runs over the store in memory; its clock and its runner do not reach into the store.
pub record IsInMemory {R Conn : Type 0} (s : PracticeService (World R) Conn)
    (runner : RunnerClient (World R) Conn) : Type 0 where
  pub store_is : s.store ≡ some (memory_store R)
  pub runner_is : s.runner ≡ some runner
  pub clock_keeps : (w : World R) → (s.now w).1.memory ≡ w.memory
  pub delete_keeps :
      (id : Text) (reason : Status) (after : ℕ) (w : World R)
      → (state (runner.delete_workspace id reason after w)).memory ≡ w.memory
  pub reset_keeps :
      (id : Text) (w : World R) → (state (runner.reset_workspace id w)).memory ≡ w.memory
