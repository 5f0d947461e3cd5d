-- ===== src/Api/Service/Access.antt =====
-- The methods of practiceService (practice_service.go) by which a user works with a session.
pub mod Owner
pub mod Create
use git_gym.Prelude.{ℕ, ◌+◌, not, ◌&&◌, ◌||◌, none, List, [], ◌∷◌, ◌==◌, if◌then◌else◌, length}
use git_gym.Api.Domain.{PracticeSession, active, expired, practice_session_ttl}
use git_gym.Api.Errors.{
  Error, Sentinel, sentinel, wrapped, is, invalid_practice_session_input,
  practice_session_not_found, practice_session_expired, client_not_configured, workspace_not_found,
  runner_workspace_creation, runner_workspace_reset, runner_repo_state_unavailable,
  runner_terminal_unavailable, unknown_practice_template,
}
use git_gym.Api.Monad.{M, pure, fail, on_outcome, ◌>>=◌, ◌>>◌, require, refuse_if}
use git_gym.Api.Ports.{
  RunnerClient, Store, RepoState, Workspace, PracticeTemplate, PracticeScenario,
}
use git_gym.Api.Service.{
  PracticeService, not_configured, clock, ensure_session_available, orphan_session,
  upsert_workspace_cleanup_job,
}

pub record CreatePracticeSessionInput : Type 0 where
  pub user_id : ℕ
  pub scenario_id : ℕ
  pub template_id : ℕ

-- The session that CreatePracticeSession stores.
unfoldable pub new_session :
    ℕ → PracticeScenario → PracticeTemplate → Workspace → ℕ → PracticeSession
new_session user_id scenario template workspace now = record {
  id = 0;
  user_id = user_id;
  scenario_id = scenario.id;
  template_id = template.id;
  runner_ref = workspace.id;
  workspace_path_ref = workspace.path;
  status = active;
  started_at = now;
  ended_at = none;
  expires_at = now + practice_session_ttl;
  last_activity_at = now;
}

-- What is said of a runner that fails: it is not configured, or the call did not work.
abbrev pub runner_error : Sentinel → Error → Error
runner_error failed e = if is e client_not_configured then not_configured else sentinel failed

module _ {W Conn : Type 0} (s : PracticeService W Conn) where
  -- The second half of CreatePracticeSession: the workspace, and the session over it.
  start_session :
      RunnerClient W Conn → Store W → ℕ → PracticeScenario → PracticeTemplate → M W PracticeSession
  unfolding new_session
  start_session runner store user_id scenario template = do
    workspace ←
        on_outcome (runner.create_workspace template.key)
          (λ e. fail (runner_error runner_workspace_creation e)) pure
    now ← clock s
    on_outcome (store.create_practice_session (new_session user_id scenario template workspace now))
        (λ e. fail (wrapped e)) pure

  unfoldable pub create_practice_session : CreatePracticeSessionInput → M W PracticeSession
  unfolding start_session
  create_practice_session input = do
    refuse_if (input.user_id == 0 || input.scenario_id == 0)
        (sentinel invalid_practice_session_input)
    catalog ← require s.catalog not_configured
    runner ← require s.runner not_configured
    store ← require s.store not_configured
    scenario ← catalog.scenario_by_id input.scenario_id
    template ←
        on_outcome (catalog.template_by_id scenario.template_id) (λ e. fail not_configured) pure
    refuse_if (not (input.template_id == 0) && not (input.template_id == template.id))
        (sentinel unknown_practice_template)
    start_session runner store input.user_id scenario template

  unfoldable pub current_practice_session : ℕ → M W PracticeSession
  current_practice_session user_id = do
    refuse_if (user_id == 0) (sentinel invalid_practice_session_input)
    store ← require s.store not_configured
    session ← store.current_practice_session user_id
    refuse_if (not (session.user_id == user_id)) (sentinel practice_session_not_found)
    on_outcome (ensure_session_available s session)
        (λ e.
          fail (if is e practice_session_expired then sentinel practice_session_not_found else e))
        pure

  unfoldable pub practice_session_by_id : ℕ → ℕ → M W PracticeSession
  practice_session_by_id user_id session_id = do
    refuse_if (user_id == 0 || session_id == 0) (sentinel invalid_practice_session_input)
    store ← require s.store not_configured
    session ← store.practice_session_by_id session_id
    refuse_if (not (session.user_id == user_id)) (sentinel practice_session_not_found)
    ensure_session_available s session

  -- A workspace that the runner does not have orphans the session; other errors only fail the call.
  runner_failed : {A : Type 0} → Sentinel → PracticeSession → Error → M W A
  runner_failed failed session e =
      if is e workspace_not_found then orphan_session s session else fail (runner_error failed e)

  unfoldable pub reset_practice_session : ℕ → ℕ → M W (Unit {0})
  unfolding runner_failed
  reset_practice_session user_id session_id = do
    refuse_if (user_id == 0 || session_id == 0) (sentinel invalid_practice_session_input)
    runner ← require s.runner not_configured
    session ← practice_session_by_id user_id session_id
    on_outcome (runner.reset_workspace session.runner_ref)
        (runner_failed runner_workspace_reset session) pure

  unfoldable pub practice_session_repo_state : ℕ → ℕ → M W RepoState
  unfolding runner_failed
  practice_session_repo_state user_id session_id = do
    runner ← require s.runner not_configured
    session ← practice_session_by_id user_id session_id
    on_outcome (runner.get_repo_state session.runner_ref)
        (runner_failed runner_repo_state_unavailable session) pure

  unfoldable pub connect_terminal : ℕ → ℕ → M W Conn
  unfolding runner_failed
  connect_terminal user_id session_id = do
    runner ← require s.runner not_configured
    session ← practice_session_by_id user_id session_id
    on_outcome (runner.connect_terminal session.runner_ref)
        (runner_failed runner_terminal_unavailable session) pure

  -- The loop over the sessions that the store expired.
  schedule_all : ℕ → List PracticeSession → M W (Unit {0})
  schedule_all now [] = pure tt
  schedule_all now (session ∷ rest) =
      upsert_workspace_cleanup_job s session expired now >> schedule_all now rest

  unfoldable pub expire_stale_practice_sessions : M W ℕ
  unfolding schedule_all
  expire_stale_practice_sessions = do
    store ← require s.store not_configured
    now ← clock s
    expired_sessions ←
        on_outcome (store.expire_practice_sessions now now) (λ e. fail (wrapped e)) pure
    schedule_all now expired_sessions
    pure (length expired_sessions)
