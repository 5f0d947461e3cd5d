-- ===== src/Api/Http/Examples.antt =====
-- The theorems on the handlers and the middleware at concrete requests.
use git_gym.Prelude.{ℕ, ◌≡◌, ◌⊎◌, refl, true, none, some, Option, [], ◌∷◌}
use git_gym.Prelude.Map.{lookup}
use git_gym.Prelude.Text.{Text, codes}
use git_gym.Api.Domain.{PracticeSession, active}
use git_gym.Api.Errors.{ok}
use git_gym.Api.Monad.{M}
use git_gym.Api.Service.{PracticeService, new_practice_service, ensure_session_available}
use git_gym.Api.Service.Access.{current_practice_session}
use git_gym.Api.Service.Access.Owner.{IsAvailable}
use git_gym.Api.Store.State.{new_memory_store}
use git_gym.Api.Store.Sessions
use git_gym.Api.Ports.{PracticeScenario}
use git_gym.Api.Catalog.Stored.{PracticeCatalogStore}
use git_gym.Api.Memory.{World, memory_store}
use git_gym.Api.Mysql.Tables.{Db, BrowserSession}
use git_gym.Api.Http.Reply.{
  Reply, Handler, reply, message, session_body, new_practice_session_response,
}
use git_gym.Api.Http.Session.{AuthenticatedSession, require_session_cookie}
use git_gym.Api.Http.Handlers.{get_current_practice_session}
use git_gym.Api.Http.Own.{current_reply_own}
use git_gym.Api.Http.Gate.{IsBypassed, IsRefusal, IsAdmitted, gate_cases}

abbrev service : PracticeService (World ℕ) (Unit {0})
unfolding new_practice_service
service = new_practice_service (some (memory_store ℕ)) none (λ w. (10, w)) (λ e. codes "x")

abbrev open_session : PracticeSession
open_session = record {
  id = 1;
  user_id = 3;
  scenario_id = 1;
  template_id = 1;
  runner_ref = codes "ws-1";
  workspace_path_ref = codes "/ws-1";
  status = active;
  started_at = 5;
  ended_at = none;
  expires_at = 100;
  last_activity_at = 5;
}

abbrev world : World ℕ
world = record {
  memory = record new_memory_store {
    sessions = (1, open_session) ∷ [];
    current_by_user = (3, 1) ∷ [];
  };
  wall = 11;
  rest = 0;
}

abbrev user_3 : AuthenticatedSession
user_3 = record { user_id = 3; session_token = codes "t" }

abbrev shown : Reply
shown = record { status = 200; body = session_body (new_practice_session_response open_session) }

current_reply_own_example :
    (auth : AuthenticatedSession) × (practice : PracticeSession) × (read : World ℕ) × (◌≡◌
      {A = Option AuthenticatedSession}
      (some user_3)
      (some auth))
    × (shown.body ≡ session_body (new_practice_session_response practice))
    × (practice.user_id ≡ auth.user_id)
    × IsAvailable service practice read world
unfolding service get_current_practice_session current_practice_session
    Sessions.current_practice_session lookup ensure_session_available
current_reply_own_example = current_reply_own service (some user_3) world world shown refl refl

abbrev signed_in_row : BrowserSession
signed_in_row = record {
  id = 1;
  user_id = 3;
  session_token_hash = codes "t";
  user_agent = none;
  ip_address = none;
  expires_at = 100;
  revoked_at = none;
}

-- A store whose only row answers every token, and the clock at 10.
abbrev one_row : Text → M ℕ BrowserSession
one_row hash w = ok signed_in_row w

abbrev greet : AuthenticatedSession → Handler ℕ
greet auth = reply 200 (message auth.session_token)

gate_cases_example :
    let out =
      require_session_cookie
        (λ t. t)
        (λ w. (10, w))
        greet
        []
        true
        (some one_row)
        (some (codes "t"))
        0 in
    IsBypassed (λ t. t) (λ w. (10, w)) greet [] true out 0
    ⊎ (IsRefusal out.0
        ⊎ ((auth : AuthenticatedSession) × (w' : ℕ) × IsAdmitted
              (λ t. t)
              (λ w. (10, w))
              greet
              (some one_row)
              (some (codes "t"))
              auth
              0
              w'
            × (out ≡ greet auth w')))
gate_cases_example =
    gate_cases (λ t. t) (λ w. (10, w)) greet [] true (some one_row) (some (codes "t")) 0

abbrev tables : Db
tables = record {
  users = [];
  user_sessions = signed_in_row ∷ [];
  practice_sessions = [];
  workspace_cleanup_jobs = [];
  next_user = 4;
  next_user_session = 2;
  next_practice_session = 1;
  next_workspace_cleanup_job = 1;
  current_timestamp = 20;
  faults = [];
}

abbrev sandbox : PracticeScenario
sandbox = record { id = 1; key = codes "s"; name = codes "S"; template_id = 2 }

abbrev catalog_store : PracticeCatalogStore ℕ
catalog_store = record {
  list_practice_templates = λ w. ok (record { id = 2; key = codes "t"; name = codes "T" } ∷ []) w;
  list_practice_scenarios = λ w. ok (sandbox ∷ []) w;
}
