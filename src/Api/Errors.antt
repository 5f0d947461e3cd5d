-- ===== src/Api/Errors.antt =====
-- Errors of the API service: the sentinels of practice_service.go, auth_service.go and
-- runner/client.go, wrapping by
-- `fmt.Errorf` and `errors.Join`, and `errors.Is`. Message texts are left out, but for errors that
-- come from elsewhere.
use git_gym.Prelude.{ℕ, Bool, false, ◌||◌, ◌==◌}
use git_gym.Prelude.Text.{Text}

pub data Sentinel : Type 0 where
  invalid_practice_session_input : Sentinel
  unknown_practice_scenario : Sentinel
  unknown_practice_template : Sentinel
  practice_service_configuration : Sentinel
  runner_workspace_creation : Sentinel
  runner_workspace_reset : Sentinel
  runner_repo_state_unavailable : Sentinel
  runner_terminal_unavailable : Sentinel
  practice_session_not_found : Sentinel
  practice_session_expired : Sentinel
  practice_session_orphaned : Sentinel
  workspace_cleanup_job_not_found : Sentinel
  workspace_cleanup_job_not_exhausted : Sentinel
  client_not_configured : Sentinel
  workspace_not_found : Sentinel
  browser_session_not_found : Sentinel

-- Which variable a sentinel is: two are the same error exactly when these agree.
abbrev pub index : Sentinel → ℕ
index invalid_practice_session_input = 0
index unknown_practice_scenario = 1
index unknown_practice_template = 2
index practice_service_configuration = 3
index runner_workspace_creation = 4
index runner_workspace_reset = 5
index runner_repo_state_unavailable = 6
index runner_terminal_unavailable = 7
index practice_session_not_found = 8
index practice_session_expired = 9
index practice_session_orphaned = 10
index workspace_cleanup_job_not_found = 11
index workspace_cleanup_job_not_exhausted = 12
index client_not_configured = 13
index workspace_not_found = 14
index browser_session_not_found = 15

-- `wrapped e` is `fmt.Errorf("…: %w", e)`; an error that is only formatted by `%v` is lost to
-- `errors.Is`, so `fmt.Errorf("%w: %v", ErrX, e)` is `sentinel x`.
pub data Error : Type 0 where
  sentinel : Sentinel → Error
  wrapped : Error → Error
  joined : Error → Error → Error
  foreign : Text → Error

-- `errors.Is(e, ErrX)`.
abbrev pub is : Error → Sentinel → Bool
is (sentinel a) b = index a == index b
is (wrapped e) b = is e b
is (joined e f) b = is e b || is f b
is (foreign m) b = false

-- What an operation on a state ends with: a value or an error, and the state it leaves.
pub data Out (W : Type 0) (A : Type 0) : Type 0 where
  ok : A → W → Out W A
  err : Error → W → Out W A

abbrev pub state : {W A : Type 0} → Out W A → W
state (ok a w) = w
state (err e w) = w
