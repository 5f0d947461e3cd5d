-- ===== src/Api/Http/Handlers.antt =====
-- The handlers of handlers/practice_sessions.go, handlers/repo_state.go and handlers/templates.go, behind the session
-- middleware: `session` is what the request's context has. A request body is what the JSON decoder
-- makes of it, `none` where it fails; a path parameter is a text.
use git_gym.Prelude.{ℕ, Bool, true, false, Option, none, some, List, [], ◌∷◌, ◌==◌, if◌then◌else◌}
use git_gym.Prelude.Text.{Text, codes, parse_uint}
use git_gym.Api.Errors.{Error, ok, err, is, runner_repo_state_unavailable}
use git_gym.Api.Service.{PracticeService}
use git_gym.Api.Service.Access.{
  create_practice_session, current_practice_session, reset_practice_session,
  practice_session_repo_state,
}
use git_gym.Api.Service.Listing.{list_templates_with_error, list_scenarios_with_error}
use git_gym.Api.Http.Reply.{
  Handler, reply, answer, Body, message, failure, catalog_body, session_body, repo_state_body,
  resetting, new_practice_session_response, status_for_practice_session_mutation_error,
  status_for_practice_session_lookup_error,
}
use git_gym.Api.Http.Session.{AuthenticatedSession}

-- `if !ok || authenticatedSession.UserID == 0`.
abbrev pub authenticated :
    {W : Type 0} → Option AuthenticatedSession → (AuthenticatedSession → Handler W) → Handler W
authenticated none handle =
    reply 500 (message (codes "authenticated session missing from request context"))
authenticated (some session) handle =
    if session.user_id == 0
    then reply 500 (message (codes "authenticated session missing from request context"))
    else handle session

-- `if err != nil || sessionID == 0`.
abbrev pub with_id : {W : Type 0} → Body → Option ℕ → (ℕ → Handler W) → Handler W
with_id refusal none handle = reply 400 refusal
with_id refusal (some id) handle = if id == 0 then reply 400 refusal else handle id

abbrev is_dirty : List Text → Bool
is_dirty [] = false
is_dirty (line ∷ lines) = true

module _ {W Conn : Type 0} (s : PracticeService W Conn) where
  unfoldable pub create_session : Option ℕ → Option AuthenticatedSession → Handler W
  unfolding status_for_practice_session_mutation_error
  create_session none session = reply 400 (message (codes "invalid JSON body"))
  create_session (some scenario_id) session =
      if scenario_id == 0
      then reply 400 (message (codes "scenario_id is required"))
      else authenticated session λ auth.
        answer
          (create_practice_session s
            (record { user_id = auth.user_id; scenario_id = scenario_id; template_id = 0 }))
          status_for_practice_session_mutation_error
          (λ created. (201, session_body (new_practice_session_response created)))

  unfoldable pub get_current_practice_session : Option AuthenticatedSession → Handler W
  unfolding status_for_practice_session_lookup_error
  get_current_practice_session session = authenticated session λ auth.
      answer (current_practice_session s auth.user_id) status_for_practice_session_lookup_error
        (λ current. (200, session_body (new_practice_session_response current)))

  unfoldable pub reset_session : Text → Option AuthenticatedSession → Handler W
  unfolding status_for_practice_session_mutation_error parse_uint
  reset_session raw_id session = authenticated session λ auth.
      with_id (message (codes "invalid session id")) (parse_uint raw_id) λ session_id.
        answer (reset_practice_session s auth.user_id session_id)
          status_for_practice_session_mutation_error (λ done. (202, resetting session_id))

  repo_state_status : Error → ℕ
  unfolding status_for_practice_session_lookup_error
  repo_state_status e =
      if is e runner_repo_state_unavailable then 502 else status_for_practice_session_lookup_error e

  unfoldable pub get_practice_session_repo_state : Text → Option AuthenticatedSession → Handler W
  unfolding repo_state_status parse_uint
  get_practice_session_repo_state raw_id session = authenticated session λ auth.
      with_id (message (codes "invalid session id")) (parse_uint raw_id) λ session_id.
        answer (practice_session_repo_state s auth.user_id session_id) repo_state_status
          (λ found. (200, repo_state_body found (is_dirty found.status_summary)))

  -- ListPracticeTemplates.
  unfoldable pub list_practice_templates : Handler W
  list_practice_templates w = elim (list_templates_with_error s w) [
    | err e w' ↦ reply 500 (failure e) w'
    | ok templates w' ↦
        answer (list_scenarios_with_error s) (λ e. 500)
          (λ scenarios. (200, catalog_body templates scenarios)) w'
  ]
