-- ===== src/Api/Http/Reply.antt =====
-- Replies of the handlers of services/api/internal/http, and the status of an error
-- (handlers/practice_sessions.go).
use git_gym.Prelude.{ℕ, Bool, ◌||◌, Option, List, if◌then◌else◌}
use git_gym.Prelude.Text.{Text}
use git_gym.Api.Domain.{PracticeSession, WorkspaceCleanupJob, Status}
use git_gym.Api.Errors.{
  Error, ok, err, is, invalid_practice_session_input, unknown_practice_scenario,
  unknown_practice_template, practice_session_not_found, practice_session_expired,
  practice_session_orphaned, practice_service_configuration, runner_workspace_creation,
  runner_workspace_reset, runner_terminal_unavailable,
}
use git_gym.Api.Monad.{M}
use git_gym.Api.Ports.{RepoState, PracticeTemplate, PracticeScenario}

pub record PracticeSessionResponse : Type 0 where
  pub id : ℕ
  pub user_id : ℕ
  pub scenario_id : ℕ
  pub template_id : ℕ
  pub runner_ref : Text
  pub workspace_path : Text
  pub status : Status
  pub started_at : ℕ
  pub ended_at : Option ℕ
  pub expires_at : ℕ
  pub last_activity_at : ℕ

unfoldable pub new_practice_session_response : PracticeSession → PracticeSessionResponse
new_practice_session_response session = record {
  id = session.id;
  user_id = session.user_id;
  scenario_id = session.scenario_id;
  template_id = session.template_id;
  runner_ref = session.runner_ref;
  workspace_path = session.workspace_path_ref;
  status = session.status;
  started_at = session.started_at;
  ended_at = session.ended_at;
  expires_at = session.expires_at;
  last_activity_at = session.last_activity_at;
}

pub data Body : Type 0 where
  message : Text → Body
  failure : Error → Body
  session_body : PracticeSessionResponse → Body
  repo_state_body : RepoState → Bool → Body
  jobs_body : List WorkspaceCleanupJob → Body
  resetting : ℕ → Body
  requeued : ℕ → Body
  catalog_body : List PracticeTemplate → List PracticeScenario → Body

pub record Reply : Type 0 where
  pub status : ℕ
  pub body : Body

abbrev pub Handler : Type 0 → Type 0
Handler W = W → Reply × W

abbrev pub reply : {W : Type 0} → ℕ → Body → Handler W
reply status body w = (record { status = status; body = body }, w)

-- The reply to what a method of the service returned.
abbrev pub answer : {W A : Type 0} → M W A → (Error → ℕ) → (A → ℕ × Body) → Handler W
answer call status_for success w = elim (call w) [
  | ok a w' ↦ reply (success a).0 (success a).1 w'
  | err e w' ↦ reply (status_for e) (failure e) w'
]

unfoldable pub status_for_practice_session_mutation_error : Error → ℕ
status_for_practice_session_mutation_error e =
    if is e invalid_practice_session_input
      || (is e unknown_practice_scenario || is e unknown_practice_template)
    then 400
    else (if is e practice_session_not_found
        then 404
        else (if is e practice_session_expired || is e practice_session_orphaned
            then 410
            else (if is e practice_service_configuration
                then 500
                else (if is e runner_workspace_creation
                      || (is e runner_workspace_reset || is e runner_terminal_unavailable)
                    then 502
                    else 500))))

unfoldable pub status_for_practice_session_lookup_error : Error → ℕ
status_for_practice_session_lookup_error e =
    if is e invalid_practice_session_input
    then 400
    else (if is e practice_session_not_found
        then 404
        else (if is e practice_session_expired || is e practice_session_orphaned
            then 410
            else (if is e practice_service_configuration
                then 500
                else (if is e runner_terminal_unavailable then 502 else 500))))
