-- ===== src/Api/Ports.antt =====
-- What the practice service calls: the interfaces PracticeSessionStore (practice_service.go),
-- runner.Client (services/api/internal/runner/client.go) and PracticeCatalog (practice_catalog.go),
-- as operations on a world `W`. A terminal connection is a value of a type `Conn` of the caller's.
use git_gym.Prelude.{ℕ, List}
use git_gym.Prelude.Text.{Text, ℤ}
use git_gym.Api.Domain.{PracticeSession, WorkspaceCleanupJob, Status}
use git_gym.Api.Monad.{M}

pub record PracticeTemplate : Type 0 where
  pub id : ℕ
  pub key : Text
  pub name : Text

pub record PracticeScenario : Type 0 where
  pub id : ℕ
  pub key : Text
  pub name : Text
  pub template_id : ℕ

pub record Workspace : Type 0 where
  pub id : Text
  pub path : Text

pub record RepoState : Type 0 where
  pub branch_name : Text
  pub head_commit : Text
  pub status_summary : List Text
  pub captured_at : ℕ

pub record Store (W : Type 0) : Type 0 where
  pub create_practice_session : PracticeSession → M W PracticeSession
  pub current_practice_session : ℕ → M W PracticeSession
  pub practice_session_by_id : ℕ → M W PracticeSession
  pub update_practice_session : PracticeSession → M W PracticeSession
  pub expire_practice_sessions : ℕ → ℕ → M W (List PracticeSession)
  pub upsert_workspace_cleanup_job : WorkspaceCleanupJob → M W (Unit {0})
  pub claim_due_workspace_cleanup_jobs : ℕ → ℤ → M W (List WorkspaceCleanupJob)
  pub mark_workspace_cleanup_job_succeeded : ℕ → M W (Unit {0})
  pub mark_workspace_cleanup_job_failed : ℕ → ℕ → Text → M W (Unit {0})
  pub workspace_cleanup_job_by_id : ℕ → M W WorkspaceCleanupJob
  pub requeue_workspace_cleanup_job : ℕ → ℕ → M W (Unit {0})
  pub list_practice_sessions_missing_workspace_cleanup_job : ℤ → M W (List PracticeSession)
  pub list_exhausted_workspace_cleanup_jobs : ℤ → M W (List WorkspaceCleanupJob)

pub record RunnerClient (W Conn : Type 0) : Type 0 where
  pub create_workspace : Text → M W Workspace
  pub reset_workspace : Text → M W (Unit {0})
  pub get_repo_state : Text → M W RepoState
  pub connect_terminal : Text → M W Conn
  pub delete_workspace : Text → Status → ℕ → M W (Unit {0})

pub record PracticeCatalog (W : Type 0) : Type 0 where
  pub list_templates : M W (List PracticeTemplate)
  pub list_scenarios : M W (List PracticeScenario)
  pub template_by_id : ℕ → M W PracticeTemplate
  pub scenario_by_id : ℕ → M W PracticeScenario
